-- ===== src/Solver/Requests.antt =====
-- The requests that belong to an order, and the handlers that make only such requests.
use oif_starknet.Prelude.{ℕ, ◌≡◌}
use oif_starknet.Prelude.Result.{ok}
use oif_starknet.Prelude.Text.{GoString}
use oif_starknet.Types.{ParsedArgs}
use oif_starknet.Types.Address.{Geth}
use oif_starknet.EnvUtil.{Env}
use oif_starknet.Config.Networks.{Networks}
use oif_starknet.StarknetUtil.{Felts}
use oif_starknet.Chain.{
  Request, evm_sign_approve, evm_send_approve, evm_fill, evm_settle, starknet_invoke,
}
use oif_starknet.Chain.Emits.{Emits-mono, Emits-lift}
use oif_starknet.Evm.Client.{EvmClient}
use oif_starknet.Evm.Methods.{evm_handler}
use oif_starknet.Evm.Sent as EvmSent
use oif_starknet.Starknet.Client.{StarknetClient}
use oif_starknet.Starknet.Methods.{starknet_handler}
use oif_starknet.Starknet.Sent as StarknetSent
use oif_starknet.Solver.Process.{Connections, nil_handler}
use oif_starknet.Solver.Keeps.{IsSafe}

-- A request that changes nothing on a chain.
abbrev pub IsRead : {Felt : Type 0} → Request Felt → Type 0
IsRead (evm_sign_approve token spender amount) = ⊥
IsRead (evm_send_approve token spender amount) = ⊥
IsRead (evm_fill settler order_id origin_data value) = ⊥
IsRead (evm_settle settler order_id value) = ⊥
IsRead (starknet_invoke contract function call_data) = ⊥
IsRead _ = Unit

module _ {Felt : Type 0} (g : Geth) (fs : Felts Felt) (networks : Networks) (getenv : Env)
    (conn : Connections Felt) where
  -- The clients that the solver's connections give.
  abbrev pub EvmObtained : EvmClient Felt → Type 0
  EvmObtained c = (id : ℕ) × (conn.get_evm_client id ≡ ok c)

  abbrev pub StarknetObtained : StarknetClient Felt → Type 0
  StarknetObtained c =
      (url : GoString) × (address : Felt) × (key : GoString) × (conn.new_account url address key
        ≡ ok c)

  -- A request that belongs to an order: a read, or what the fill or the settlement of that order by
  -- a handler with one of the solver's clients may send.
  pub data OrderRequest (args : ParsedArgs) (q : Request Felt) : Type 0 where
    reads : IsRead q → OrderRequest args q
    evm_fills :
        (c : EvmClient Felt)
        → EvmObtained c
        → EvmSent.FillRequest g c networks getenv args q
        → OrderRequest args q
    evm_settles :
        (c : EvmClient Felt)
        → EvmObtained c
        → EvmSent.SettleRequest g c networks getenv args q
        → OrderRequest args q
    starknet_fills :
        (c : StarknetClient Felt)
        → StarknetObtained c
        → StarknetSent.FillRequest fs c networks args q
        → OrderRequest args q
    starknet_settles :
        (c : StarknetClient Felt)
        → StarknetObtained c
        → StarknetSent.SettleRequest fs c networks args q
        → OrderRequest args q

  pub evm_handler-IsSafe :
      (c : EvmClient Felt) → EvmObtained c → IsSafe OrderRequest (evm_handler g c networks getenv)
  evm_handler-IsSafe c obtained = record {
    fills = λ args.
        Emits-mono _ _ _ (λ q p. evm_fills c obtained p)
          (EvmSent.evm_fill_order-Emits g c networks getenv args);
    settles = λ args.
        Emits-mono _ _ _ (λ q p. evm_settles c obtained p)
          (EvmSent.evm_settle_order-Emits g c networks getenv args);
  }

  pub starknet_handler-IsSafe :
      (c : StarknetClient Felt)
      → StarknetObtained c
      → IsSafe OrderRequest (starknet_handler fs c networks)
  starknet_handler-IsSafe c obtained = record {
    fills = λ args.
        Emits-mono _ _ _ (λ q p. starknet_fills c obtained p)
          (StarknetSent.starknet_fill_order-Emits fs c networks args);
    settles = λ args.
        Emits-mono _ _ _ (λ q p. starknet_settles c obtained p)
          (StarknetSent.starknet_settle_order-Emits fs c networks args);
  }

  pub nil_handler-IsSafe : IsSafe OrderRequest nil_handler
  nil_handler-IsSafe = record { fills = λ args. Emits-lift _; settles = λ args. Emits-lift _ }
