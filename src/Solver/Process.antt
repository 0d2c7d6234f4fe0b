-- ===== src/Solver/Process.antt =====
-- The methods of `Hyperlane7683Solver`.
use oif_starknet.Prelude.{
  ℕ, Bool, true, false, List, [], ◌∷◌, Option, none, some, not, ◌==◌, ◌||◌, if◌then◌else◌,
}
use oif_starknet.Prelude.Result.{Result, ok, err, panic, errorf, wrap, nil_dereference}
use oif_starknet.Prelude.Text.{GoString, str, str_eq, contains, to_lower}
use oif_starknet.Prelude.BigInt.{to_uint64}
use oif_starknet.Types.{ParsedArgs, FillInstruction, AllowBlockLists}
use oif_starknet.Types.AllowBlock.{is_allowed_intent}
use oif_starknet.Types.Address.{Geth}
use oif_starknet.EnvUtil.{
  Env, get_starknet_solver_address, get_starknet_solver_public_key, get_starknet_solver_private_key,
}
use oif_starknet.Config.Networks.{NetworkConfig, Networks, by_chain_id}
use oif_starknet.StarknetUtil.{Felts}
use oif_starknet.Logutil.{log_order_processing}
use oif_starknet.Chain.{M, State, lift, ask, pause}
use oif_starknet.Handler.{OrderAction, settle, complete, error, ChainHandler}
use oif_starknet.Evm.Client.{EvmClient}
use oif_starknet.Evm.Methods.{evm_handler}
use oif_starknet.Starknet.Client.{StarknetClient}
use oif_starknet.Starknet.Methods.{starknet_handler}
use oif_starknet.Rules.Clients.{BalanceClients, Uint256}
use oif_starknet.Rules.Engine.{new_rules_engine, evaluate_all}
use oif_starknet.Solver.Monad.{S, return, refuse, run, wrapped, ◌>>=◌, ◌>>◌}

-- What the solver obtains clients and signers from: the functions that `NewHyperlane7683Solver` is
-- given, and what `NewHyperlaneStarknet` calls of starknet.go.
pub record Connections (Felt : Type 0) : Type 0 where
  pub get_evm_client : ℕ → Result (EvmClient Felt)
  pub get_evm_signer : ℕ → Result (Unit {0})
  pub new_provider : GoString → Result (Unit {0})
  -- whether `SetString` reads the private key
  pub reads_key : GoString → Bool
  pub new_account : GoString → Felt → GoString → Result (StarknetClient Felt)

-- The methods of a nil `*HyperlaneStarknet`: `h.mu.Lock()` panics.
abbrev pub nil_handler : {Felt : Type 0} → ChainHandler Felt
nil_handler = record {
  fill_order = λ args. lift (panic nil_dereference);
  settle_order = λ args. lift (panic nil_dereference);
  get_order_status = λ args. lift (panic nil_dereference);
}

-- `isStarknetChain` and `isEVMChain` of solver.go: what the first network with the identifier is.
unfoldable pub is_starknet_name : Option (GoString × NetworkConfig) → Bool
is_starknet_name none = false
is_starknet_name (some (k, n)) = contains (to_lower k) (str "starknet")

unfoldable pub is_evm_name : Option (GoString × NetworkConfig) → Bool
is_evm_name none = false
is_evm_name (some (k, n)) = not (contains (to_lower k) (str "starknet"))

unfoldable pub names_starknet_chain : Networks → ℕ → Bool
unfolding is_starknet_name
names_starknet_chain networks chain_id =
    is_starknet_name (by_chain_id (to_uint64 chain_id) networks)

unfoldable pub is_evm_chain : Networks → ℕ → Bool
unfolding is_evm_name
is_evm_chain networks chain_id = is_evm_name (by_chain_id (to_uint64 chain_id) networks)

unfoldable pub network_config_of : Option (GoString × NetworkConfig) → Result NetworkConfig
network_config_of none = err (errorf "network config not found for chain ID")
network_config_of (some (k, n)) = ok n

unfoldable pub get_network_config_by_chain_id : Networks → ℕ → Result NetworkConfig
unfolding network_config_of
get_network_config_by_chain_id networks chain_id =
    network_config_of (by_chain_id (to_uint64 chain_id) networks)

-- `f.evmHandlers[chainID]`
unfoldable pub find_handler :
    {Felt : Type 0} → ℕ → List (ℕ × ChainHandler Felt) → Option (ChainHandler Felt)
find_handler id [] = none
find_handler id ((k, h) ∷ rest) = if k == id then some h else find_handler id rest

module _ {Felt U : Type 0} (g : Geth) (fs : Felts Felt) (bc : BalanceClients Felt) (u : Uint256 U)
    (networks : Networks) (getenv : Env) (conn : Connections Felt) (lists : AllowBlockLists) where
  -- The steps of `NewHyperlaneStarknet`, which returns nil when one of them fails.
  unfoldable pub with_account : Result (StarknetClient Felt) → ChainHandler Felt
  with_account (ok c) = starknet_handler fs c networks
  with_account (err e) = nil_handler
  with_account (panic p) = nil_handler

  unfoldable pub with_address : NetworkConfig → Result Felt → ChainHandler Felt
  unfolding with_account
  with_address n (ok address) =
      if conn.reads_key (get_starknet_solver_private_key getenv)
      then with_account (conn.new_account n.rpc_url address (get_starknet_solver_public_key getenv))
      else nil_handler
  with_address n (err e) = nil_handler
  with_address n (panic p) = nil_handler

  unfoldable pub with_provider : NetworkConfig → Result (Unit {0}) → ChainHandler Felt
  unfolding with_address
  with_provider n (ok provider) =
      if str_eq (get_starknet_solver_public_key getenv) []
        || str_eq (get_starknet_solver_address getenv) []
        || str_eq (get_starknet_solver_private_key getenv) []
      then nil_handler
      else with_address n (fs.hex_to_felt (get_starknet_solver_address getenv))
  with_provider n (err e) = nil_handler
  with_provider n (panic p) = nil_handler

  unfoldable pub new_hyperlane_starknet : NetworkConfig → ChainHandler Felt
  unfolding with_provider
  new_hyperlane_starknet n = with_provider n (conn.new_provider n.rpc_url)

  unfoldable pub new_evm_handler :
      ℕ → Result (EvmClient Felt) → Result (Unit {0}) → S Felt (ChainHandler Felt)
  new_evm_handler id (ok c) (ok signer) (f, s) =
      let handler = evm_handler g c networks getenv in
      (ok handler, (record f { evm_handlers = (id, handler) ∷ f.evm_handlers }, s))
  new_evm_handler id (ok c) (err e) (f, s) =
      (err (wrap "failed to get EVM signer for chain" e), (f, s))
  new_evm_handler id (ok c) (panic p) (f, s) = (panic p, (f, s))
  new_evm_handler id (err e) signer (f, s) =
      (err (wrap "failed to get EVM client for chain" e), (f, s))
  new_evm_handler id (panic p) signer (f, s) = (panic p, (f, s))

  unfoldable pub or_new_evm : ℕ → Option (ChainHandler Felt) → S Felt (ChainHandler Felt)
  unfolding new_evm_handler
  or_new_evm id (some h) = return h
  or_new_evm id none = new_evm_handler id (conn.get_evm_client id) (conn.get_evm_signer id)

  unfoldable pub get_evm_handler : ℕ → S Felt (ChainHandler Felt)
  unfolding or_new_evm
  get_evm_handler chain_id (f, s) =
      or_new_evm (to_uint64 chain_id) (find_handler (to_uint64 chain_id) f.evm_handlers) (f, s)

  unfoldable pub or_new_starknet :
      Result NetworkConfig → Option (ChainHandler Felt) → S Felt (ChainHandler Felt)
  or_new_starknet n (some h) (f, s) = (ok h, (f, s))
  or_new_starknet (ok n) none (f, s) =
      let handler = new_hyperlane_starknet n in
      (ok handler, (record f { hyperlane_starknet = some handler }, s))
  or_new_starknet (err e) none (f, s) =
      (err (wrap "starknet network not found for chain ID" e), (f, s))
  or_new_starknet (panic p) none (f, s) = (panic p, (f, s))

  unfoldable pub get_starknet_handler : ℕ → S Felt (ChainHandler Felt)
  unfolding or_new_starknet
  get_starknet_handler chain_id (f, s) =
      or_new_starknet (get_network_config_by_chain_id networks chain_id) f.hyperlane_starknet (f, s)

  -- Run an operation on a handler, if there is one.
  unfoldable pub operate_on :
      S Felt (ChainHandler Felt) → (ChainHandler Felt → M Felt OrderAction) → S Felt OrderAction
  operate_on get_handler operation = do
    handler ← wrapped "failed to get handler for chain" get_handler
    wrapped "operation failed for chain" (run (operation handler))

  unfoldable pub execute_chain_operation :
      ℕ → (ChainHandler Felt → M Felt OrderAction) → S Felt OrderAction
  unfolding operate_on
  execute_chain_operation chain_id operation =
      if names_starknet_chain networks chain_id
      then operate_on (get_starknet_handler chain_id) operation
      else if is_evm_chain networks chain_id
      then operate_on (get_evm_handler chain_id) operation
      else refuse "unsupported destination chain"

  -- What the loop of `Fill` does with an instruction's action.
  unfoldable pub after_fill : OrderAction → S Felt OrderAction → S Felt OrderAction
  after_fill settle next = return settle
  after_fill complete next = next
  after_fill error next = refuse "fill instruction returned error"

  unfoldable pub fill_loop : ParsedArgs → List FillInstruction → S Felt OrderAction
  unfolding after_fill
  fill_loop args [] = return complete
  fill_loop args (i ∷ rest) =
      let next = fill_loop args rest in
      do
        action ←
            wrapped "fill instruction failed"
              (execute_chain_operation i.destination_chain_id (λ h. h.fill_order args))
        after_fill action next

  unfoldable pub fill_from : ParsedArgs → List FillInstruction → S Felt OrderAction
  unfolding fill_loop
  fill_from args [] = refuse "no fill instructions found"
  fill_from args (i ∷ rest) = fill_loop args (i ∷ rest)

  unfoldable pub fill : ParsedArgs → S Felt OrderAction
  unfolding fill_from
  fill args = do
    run (lift (log_order_processing args))
    fill_from args args.resolved_order.fill_instructions

  -- The function that `SettleOrder` hands to `executeChainOperation`.
  unfoldable pub settle_operation : ParsedArgs → ChainHandler Felt → M Felt OrderAction
  settle_operation args h =
      oif_starknet.Chain.◌>>◌ (h.settle_order args) (oif_starknet.Chain.pure complete)

  unfoldable pub settle_loop : ParsedArgs → List FillInstruction → S Felt (Unit {0})
  settle_loop args [] = return tt
  settle_loop args (i ∷ rest) =
      let next = settle_loop args rest in
      do
        wrapped "settlement instruction failed"
            (execute_chain_operation i.destination_chain_id (settle_operation args))
        next

  unfoldable pub settle_from : ParsedArgs → List FillInstruction → S Felt (Unit {0})
  unfolding settle_loop
  settle_from args [] = refuse "no fill instructions found for settlement"
  settle_from args (i ∷ rest) = settle_loop args (i ∷ rest)

  unfoldable pub settle_order : ParsedArgs → S Felt (Unit {0})
  unfolding settle_from
  settle_order args = do
    run (lift (log_order_processing args))
    settle_from args args.resolved_order.fill_instructions

  -- What follows a fill without an error.
  unfoldable pub after_action : ParsedArgs → OrderAction → S Felt Bool
  after_action args complete = return true
  after_action args settle = do
    run (ask (pause 2000) (λ _. ok tt))
    wrapped "order settlement failed" (settle_order args)
    return true
  after_action args error = return true

  unfoldable pub process_intent : ParsedArgs → S Felt Bool
  unfolding after_action
  process_intent args = do
    run (lift (log_order_processing args))
    if not (is_allowed_intent lists args) then refuse "order blocked by allow/block lists" else do
      result ← run (evaluate_all g fs bc u networks getenv new_rules_engine args)
      if not result.passed
          then refuse "order validation failed"
          else do action ← wrapped "fill execution failed" (fill args); after_action args action
