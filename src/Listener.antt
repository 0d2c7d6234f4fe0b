-- ===== src/Listener.antt =====
-- solver/solvercore/solvers/hyperlane7683/listener_base.go, listener_evm.go, listener_starknet.go
-- and solver/solvercore/base/listener.go: which blocks the listeners read, and what they make of
-- the events that they find there.
pub mod Base
pub mod Blocks
pub mod CatchUp
pub mod Chunks
pub mod Decode
pub mod EventLoop
pub mod Resume
