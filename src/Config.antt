-- ===== src/Config.antt =====
-- solver/solvercore/config: the configuration from the environment, the networks, and the
-- persisted solver state.
pub mod Loaded
pub mod Networks
pub mod SolverState
