-- ===== src/Examples/Runs.antt =====
-- The handlers and the solver.
use oif_starknet.Prelude.{ℕ, ◌≡◌, refl, Bool, true, List, [], ◌∷◌}
use oif_starknet.Prelude.Result.{Result, ok}
use oif_starknet.Chain.Emits.{Grows, Emits}
use oif_starknet.Evm.Methods as EvmMethods
use oif_starknet.Evm.Sent as EvmSent
use oif_starknet.Starknet.Methods as StarknetMethods
use oif_starknet.Starknet.Sent as StarknetSent
use oif_starknet.Solver.Monad.{Both}
use oif_starknet.Solver.Process.{process_intent}
use oif_starknet.Solver.Keeps.{HasSafe}
use oif_starknet.Solver.Requests.{OrderRequest}
use oif_starknet.Solver.Sends.{process_intent-Grows}
use oif_starknet.Solver.Outcome.{Processed, process_intent_ok}
use oif_starknet.Examples.Data.{
  geth, felts, uint256, evm_client, starknet_client, balance_clients, connections, getenv, networks,
  order, lists, new_solver, start,
}

evm_fill_order_example :
    Emits
      (EvmSent.FillRequest geth evm_client networks getenv order)
      (EvmMethods.fill_order geth evm_client networks getenv order)
evm_fill_order_example = EvmSent.evm_fill_order-Emits geth evm_client networks getenv order

evm_settle_order_example :
    Emits
      (EvmSent.SettleRequest geth evm_client networks getenv order)
      (EvmMethods.settle_order geth evm_client networks getenv order)
evm_settle_order_example = EvmSent.evm_settle_order-Emits geth evm_client networks getenv order

starknet_fill_order_example :
    Emits
      (StarknetSent.FillRequest felts starknet_client networks order)
      (StarknetMethods.fill_order felts starknet_client networks order)
starknet_fill_order_example =
    StarknetSent.starknet_fill_order-Emits felts starknet_client networks order

starknet_settle_order_example :
    Emits
      (StarknetSent.SettleRequest felts starknet_client networks order)
      (StarknetMethods.settle_order felts starknet_client networks order)
starknet_settle_order_example =
    StarknetSent.starknet_settle_order-Emits felts starknet_client networks order

process_intent-Grows_example :
    Grows
      (OrderRequest geth felts networks getenv connections order)
      start
      (process_intent geth felts balance_clients uint256 networks getenv connections lists order
        (new_solver, start)).1.1
    × HasSafe
        (OrderRequest geth felts networks getenv connections)
        (process_intent geth felts balance_clients uint256 networks getenv connections lists order
          (new_solver, start)).1.0
process_intent-Grows_example =
    process_intent-Grows geth felts balance_clients uint256 networks getenv connections lists order
      new_solver start (tt, tt)

abbrev run_order : Result Bool × Both ℕ
run_order =
    process_intent geth felts balance_clients uint256 networks getenv connections lists order
      (new_solver, start)

-- The order is found filled, and is settled.
run_order_lem : run_order ≡ (ok true, run_order.1)
unfolding oif_starknet.Prelude.Text.str_eq oif_starknet.Prelude.Text.trim_0x
    oif_starknet.Prelude.Text.contains oif_starknet.Prelude.Text.to_lower
    oif_starknet.Types.Address.to_evm_address oif_starknet.Types.AllowBlock.matches_allow_block_item
    oif_starknet.Types.AllowBlock.is_allowed_intent oif_starknet.EnvUtil.get_solver_public_key
    oif_starknet.Config.Networks.get_hyperlane_address_by_chain_id
    oif_starknet.Config.Networks.validate_network_name oif_starknet.Chain.pure
    oif_starknet.Chain.ask oif_starknet.Chain.wrapping oif_starknet.Chain.attempt
    oif_starknet.Chain.with_signer_value oif_starknet.Chain.◌>>◌ oif_starknet.Chain.uint64_of
    oif_starknet.Chain.signer_value oif_starknet.Handler.get_origin_domain
    oif_starknet.Handler.wait_for_order_status oif_starknet.Evm.Methods.get_order_status
    oif_starknet.Evm.Methods.fill_order oif_starknet.Evm.Methods.settle_order
    oif_starknet.Logutil.log_order_processing oif_starknet.Rules.Balance.is_starknet_chain
    oif_starknet.Rules.Balance.destination_chain oif_starknet.Rules.Balance.check_evm_output
    oif_starknet.Rules.Balance.check_evm_balance oif_starknet.Rules.Balance.evaluate_balance
    oif_starknet.Rules.Profit.evaluate_profit oif_starknet.Rules.Engine.new_rules_engine
    oif_starknet.Rules.Engine.evaluate oif_starknet.Rules.Engine.evaluate_all
    oif_starknet.Solver.Monad.return oif_starknet.Solver.Monad.run oif_starknet.Solver.Monad.wrapped
    oif_starknet.Solver.Monad.◌>>◌ oif_starknet.Solver.Process.names_starknet_chain
    oif_starknet.Solver.Process.is_evm_chain oif_starknet.Solver.Process.find_handler
    oif_starknet.Solver.Process.get_evm_handler oif_starknet.Solver.Process.execute_chain_operation
    oif_starknet.Solver.Process.fill oif_starknet.Solver.Process.settle_operation
    oif_starknet.Solver.Process.settle_order oif_starknet.Solver.Process.process_intent
run_order_lem = refl

process_intent_example :
    (true ≡ true)
    × Processed geth felts balance_clients uint256 networks getenv connections lists order
        (new_solver, start)
        run_order.1
process_intent_example =
    process_intent_ok geth felts balance_clients uint256 networks getenv connections lists order
      (new_solver, start) run_order.1 true run_order_lem
