-- ===== src/Rules.antt =====
-- solver/solvercore/solvers/hyperlane7683/rules.go: the rules that an order passes before the
-- solver takes it. The balance readers of solver/pkg/starknetutil and solver/pkg/ethutil are here
-- too, since this is where the solver calls them.
pub mod Clients
pub mod Balance
pub mod Profit
pub mod Engine
pub mod Reads
