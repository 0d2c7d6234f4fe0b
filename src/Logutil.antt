-- ===== src/Logutil.antt =====
-- solver/solvercore/logutil/solver_logger.go: what the logs of an order read of it. Every log of an
-- order writes the first eight bytes of its identifier, on each path of the log's function.
use oif_starknet.Prelude.{length, leb, if◌then◌else◌, ◌≡◌, ◌≤◌, refl, true, arith}
use oif_starknet.Prelude.Result.{Result, ok, panic, slice_out_of_range}
use oif_starknet.Prelude.Text.{GoString}
use oif_starknet.Types.{ParsedArgs}

-- `orderID[:8]`
unfoldable pub cross_chain_operation : GoString → Result (Unit {0})
cross_chain_operation order_id = if leb 8 (length order_id) then ok tt else panic slice_out_of_range

unfoldable pub log_order_processing : ParsedArgs → Result (Unit {0})
unfolding cross_chain_operation
log_order_processing args = cross_chain_operation args.order_id

pub cross_chain_operation_ok :
    (order_id : GoString) → 8 ≤ length order_id → cross_chain_operation order_id ≡ ok tt
unfolding cross_chain_operation
cross_chain_operation_ok order_id h =
    let long : leb 8 (length order_id) ≡ true = ground arith in rw long refl
