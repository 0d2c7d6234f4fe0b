-- ===== src/Starknet.antt =====
-- solver/solvercore/solvers/hyperlane7683/hyperlane_starknet.go: the handler of Starknet. The
-- provider and the account are the record `StarknetClient`; the mutex makes each of `Fill` and
-- `Settle` one action.
pub mod Client
pub mod Methods
pub mod Sent
