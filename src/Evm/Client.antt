-- ===== src/Evm/Client.antt =====
-- What solver/solvercore/solvers/hyperlane7683/hyperlane_evm.go calls of go-ethereum and of the
-- generated contract bindings. An answer may depend on the requests made before it.
use Prim.Native.String.{String}
use oif_starknet.Prelude.{ℕ, Option}
use oif_starknet.Prelude.Result.{Result}
use oif_starknet.Prelude.Text.{Bytes}
use oif_starknet.Types.Address.{Address}
use oif_starknet.Chain.{History}

pub record EvmClient (Felt : Type 0) : Type 0 where
  -- `abi.JSON` on the interface of a method, and `Pack` of its arguments
  pub abi_json : String → Result (Unit {0})
  pub abi_pack : String → Result (Unit {0})
  -- `CallContract` for `orderStatus` and for `allowance`, at an address
  pub call_order_status : Address → Bytes → History Felt → Result Bytes
  pub call_allowance : Address → Address → History Felt → Result Bytes
  pub chain_id : History Felt → Result ℕ
  pub pending_nonce_at : History Felt → Result ℕ
  pub suggest_gas_price : History Felt → Result ℕ
  -- `h.signer.Signer` and `SendTransaction`, for the approval of an amount
  pub sign_approve : Address → Address → ℕ → History Felt → Result (Unit {0})
  pub send_approve : Address → Address → ℕ → History Felt → Result (Unit {0})
  -- `bind.WaitMined`: the receipt's status
  pub wait_mined : History Felt → Result ℕ
  -- `contracts.NewHyperlane7683`, and the methods of the binding
  pub new_hyperlane7683 : Address → History Felt → Result (Unit {0})
  pub contract_fill : Address → Bytes → Bytes → Option ℕ → History Felt → Result (Unit {0})
  pub contract_quote_gas_payment : Address → ℕ → History Felt → Result ℕ
  pub contract_settle : Address → Bytes → Option ℕ → History Felt → Result (Unit {0})
  -- whether the context is done when a pause ends
  pub cancelled : History Felt → Result (Unit {0})
