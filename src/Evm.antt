-- ===== src/Evm.antt =====
-- solver/solvercore/solvers/hyperlane7683/hyperlane_evm.go: the handler of an EVM chain. The
-- client, the signer and the contract bindings are the record `EvmClient`; the mutex makes each of
-- `Fill` and `Settle` one action.
pub mod Client
pub mod Methods
pub mod Sent
