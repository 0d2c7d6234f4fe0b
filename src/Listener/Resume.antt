-- ===== src/Listener/Resume.antt =====
-- solver/solvercore/solvers/hyperlane7683/listener_base.go: the block at which a listener resumes,
-- and in listener_evm.go and listener_starknet.go what a new listener starts with.
pub mod Laws
use oif_starknet.Prelude.{ℕ, zero, suc, Option, none, some, ltb, if◌then◌else◌}
use oif_starknet.Prelude.Int.{ℤ, pos, negsuc}
use oif_starknet.Prelude.Result.{Result, ok, err, panic, errorf, wrap, wrapping, ◌>>=◌}
use oif_starknet.Types.Address.{Address, Geth, to_evm_address}
use oif_starknet.Config.SolverState.{SolverNetworkState, SolverState, find_state}
use oif_starknet.StarknetUtil.{Felts}
use oif_starknet.Listener.Base.{ListenerConfig, blocks_before}

-- The start block of `ResolveCommonListenerConfig`, given the answer of `BlockNumber`.
unfoldable pub resolved_start_block : ℤ → Result ℕ → Result ℕ
unfolding blocks_before
resolved_start_block (pos (suc n)) current = ok (suc n)
resolved_start_block (pos zero) (ok current) = ok current
resolved_start_block (negsuc n) (ok current) = ok (blocks_before current (suc n))
resolved_start_block start (err e) = err (wrap "failed to get current block number" e)
resolved_start_block start (panic p) = panic p

unfoldable pub later_block : ℕ → Option SolverNetworkState → Result ℕ
later_block start_block none = err (errorf "network not found in solver state")
later_block start_block (some network) =
    if ltb start_block network.last_indexed_block
    then ok network.last_indexed_block
    else ok start_block

-- `ResolveCommonListenerConfig`, given the answers of `BlockNumber` and `GetSolverState`: the last
-- processed block.
unfoldable pub resolve_common_listener_config :
    ListenerConfig → Result ℕ → Result SolverState → Result ℕ
unfolding resolved_start_block later_block
resolve_common_listener_config c current state = do
  start_block ← resolved_start_block c.initial_block current
  solver_state ← wrapping "failed to get solver state" state
  later_block start_block (find_state c.chain_name solver_state.networks)

-- A listener, with its own last processed block and its base listener's.
pub record Listener (A : Type 0) : Type 0 where
  pub config : ListenerConfig
  pub contract_address : A
  pub last_processed_block : ℕ
  pub base_last_processed_block : ℕ

unfoldable pub listener_at : {A : Type 0} → ListenerConfig → A → ℕ → Listener A
listener_at c address last = record {
  config = c;
  contract_address = address;
  last_processed_block = last;
  base_last_processed_block = last;
}

-- `NewEVMListener`, given the answers of `Dial`, `BlockNumber` and `GetSolverState`.
unfoldable pub new_evm_listener :
    Geth
    → ListenerConfig
    → Result (Unit {0})
    → Result ℕ
    → Result SolverState
    → Result (Listener Address)
unfolding resolve_common_listener_config listener_at
new_evm_listener g c dial current state = do
  client ← wrapping "failed to dial RPC" dial
  address ← wrapping "invalid EVM contract address" (to_evm_address g c.contract_address)
  last ← resolve_common_listener_config c current state
  ok (listener_at c address last)

-- `NewStarknetListener`, given the answers of `NewProvider`, `BlockNumber` and `GetSolverState`.
unfoldable pub new_starknet_listener :
    {Felt : Type 0}
    → Felts Felt
    → ListenerConfig
    → Result (Unit {0})
    → Result ℕ
    → Result SolverState
    → Result (Listener Felt)
unfolding resolve_common_listener_config listener_at
new_starknet_listener fs c provider current state = do
  client ← wrapping "failed to connect Starknet RPC" provider
  address ←
      wrapping "invalid Starknet contract address"
        (wrapping "failed to convert address to felt" (fs.hex_to_felt c.contract_address))
  last ← resolve_common_listener_config c current state
  ok (listener_at c address last)
