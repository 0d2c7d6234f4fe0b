-- ===== src/Lib.antt =====
-- The solver for Hyperlane7683 orders between EVM chains and Starknet.
--
-- The program watches the chains for orders, decides whether to take them, fills them on their
-- destination chain and settles them. Its parts, from solver/:
--   * solvercore/types: the order, the allow and block lists (types.go), and addresses
--     (address_utils.go): Types, Types/AllowBlock, Types/OrderId, Types/Address.
--   * pkg/envutil/envutil.go, the environment: EnvUtil; solvercore/config/networks.go, the table
--     of networks: Config/Networks; solvercore/config/config.go, the settings and the switches of
--     the solvers: Config/Loaded.
--   * pkg/starknetutil/starknetutil.go, numbers as field elements: StarknetUtil.
--   * solvercore/solvers/hyperlane7683/chain_handler.go, and what the two handlers share: Handler;
--     hyperlane_evm.go (HyperlaneEVM): Evm; hyperlane_starknet.go (HyperlaneStarknet): Starknet.
--   * solvercore/logutil/solver_logger.go, what the logs read of an order: Logutil.
--   * rules.go: Rules/Balance, Rules/Profit and Rules/Engine, with the balance queries of
--     pkg/starknetutil and pkg/ethutil.
--   * solver.go (Hyperlane7683Solver): Solver/Process, over the state of Solver/Monad;
--     solvercore/base/solver.go, the base solver with its own lists and rules: BaseSolver.
--   * listener_base.go and solvercore/base/listener.go: Listener/Base (the loop over block ranges)
--     and Listener/CatchUp (the backfill).
--   * listener_evm.go and listener_starknet.go: Listener/Blocks (the reading of a range, block by
--     block, with the conversion of an EVM event), Listener/Decode (the decoder of a Starknet
--     event), Listener/Resume (the construction, from the last recorded block) and
--     Listener/EventLoop (the backfill and the polling behind it).
--   * solvercore/config/solver_state.go, the file of the last recorded blocks: Config/SolverState.
--   * solvercore/solver_manager.go: SolverManager, with the clients, the registry of solvers, the
--     start of the listeners and the shutdown.
--   * cmd/tools/open-order: OpenOrder/Random (the random and the default orders of evm_order.go),
--     OpenOrder/EvmData (the data of an EVM order and its nonce), OpenOrder/StarknetOrders (the
--     orders of starknet_order.go and their data) and OpenOrder/StarknetData (that order data, as
--     bytes and as field elements).
-- The manager starts the listeners; a listener reads block ranges, turns each event into an order
-- and hands it to the solver, which routes it to a handler; a listener records the last
-- block in the state file and resumes from it. Examples holds concrete inputs.
-- A Go function CamelCase is a function snake_case here. A part of a function that is a
-- definition of its own, such as the loop over outputs, is named for what it does.
--
-- State. A handler's method runs in the monad M of Chain: its state is the signer's value and the
-- history of requests. A request is a call of a client, a transaction, or a pause. The answers are
-- functions of the history and are parameters, as are go-ethereum's address functions (Geth), the
-- conversions of starknet.go and juno (Felts), 256-bit numbers (Uint256) and the connections. The
-- solver's methods run in the monad S of Solver/Monad, which adds the handlers that the solver
-- keeps. Errors and run-time panics are values of Result; an error keeps the text of its message
-- without the values printed in it. The handlers' mutexes make each method one sequence of
-- requests. Each signer starts without a value and the methods restore it, so one field serves.
--
-- Numbers. A *big.Int is a natural number, as all amounts and identifiers are, but an integer for
-- the amounts of the order tool, whose draws may be negative; Uint64() and uint32() keep their
-- remainders. Block numbers are taken modulo 2^64. The map of networks is a
-- list in any order, as Go's iteration is. The loops over block ranges, of polling and of the
-- backfill, run on fuel: one round for each block is enough, since a range has at least one block.
-- The event loop runs on a number of polling rounds; what is shown of it holds for any number. The
-- wait for a status recurs on the number of its attempts, five, and the search for a nonce on its
-- thousand. The loop for another destination in OpenOrder/Random runs on a number of rounds: one is
-- enough where there are two EVM networks, and none where there is one.
--
-- Parameters. The operating system and the JSON format of the state file, the nodes' answers and
-- the clients, the random bytes and the time, the conversion to uint256 of the order tool, and the
-- element that HexToFelt returns beside an error that the tool drops.
--
-- Logs. What a log reads may panic: logutil's functions (Logutil) slice the first eight bytes of
-- the order's identifier. The first log of ProcessIntent, Fill and SettleOrder and those of the
-- rules are steps of the model. The later logs slice the same identifier again, also those of the
-- handlers, which the solver calls behind these, and are left out.
--
-- Not modelled: the output of the logs, and the printing of amounts; the metadata types that no
-- logic reads; the timers between two rounds of polling; of cmd/tools/open-order, the sequence of
-- client calls that opens an order (executeOrder, executeStarknetOrder) and the tables of networks;
-- the other command-line tools, which set up test networks; and the generated contract bindings.
pub mod Prelude
pub mod Types
pub mod EnvUtil
pub mod Config
pub mod StarknetUtil
pub mod Chain
pub mod Logutil
pub mod Handler
pub mod Evm
pub mod Starknet
pub mod Rules
pub mod Solver
pub mod SolverManager
pub mod Listener
pub mod BaseSolver
pub mod OpenOrder
pub mod Examples
