-- ===== src/Starknet/Client.antt =====
-- What solver/solvercore/solvers/hyperlane7683/hyperlane_starknet.go calls of starknet.go: calls of
-- view functions, which answer lists of field elements, and transactions of the account. An answer
-- may depend on the requests made before it.
use Prim.Native.String.{String}
use oif_starknet.Prelude.{ℕ, List}
use oif_starknet.Prelude.Result.{Result}
use oif_starknet.Chain.{History}

pub record StarknetClient (Felt : Type 0) : Type 0 where
  -- `provider.Call` of `order_status`, `allowance` and `quote_gas_payment`
  pub call_order_status : Felt → Felt → Felt → History Felt → Result (List Felt)
  pub call_allowance : Felt → Felt → History Felt → Result (List Felt)
  pub call_quote_gas_payment : Felt → ℕ → History Felt → Result (List Felt)
  -- `account.BuildAndSendInvokeTxn` with one call, and `account.WaitForTransactionReceipt`
  pub send_invoke : Felt → String → List Felt → History Felt → Result (Unit {0})
  pub wait_for_receipt : History Felt → Result (Unit {0})
  -- whether the context is done when a pause ends
  pub cancelled : History Felt → Result (Unit {0})
