-- ===== src/Solver.antt =====
-- solver/solvercore/solvers/hyperlane7683/solver.go: the solver that takes orders.
pub mod Monad
pub mod Process
pub mod Keeps
pub mod Requests
pub mod Sends
pub mod Outcome
