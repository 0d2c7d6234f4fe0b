-- ===== src/Examples/Managing.antt =====
-- The manager of solvers.
use oif_starknet.Prelude.{ℕ, ◌≡◌, refl, true, List, [], ◌∷◌, ◌++◌}
use oif_starknet.Prelude.BigInt.{to_uint64}
use oif_starknet.Prelude.Result.{Result, ok}
use oif_starknet.Prelude.Text.{GoString, str, str_eq, contains, to_lower, trim_0x}
use oif_starknet.Config.Networks.{Networks, lookup_network, by_chain_id}
use oif_starknet.Config.SolverState.{SolverNetworkState, find_state}
use oif_starknet.EnvUtil.{get_env_with_default}
use oif_starknet.Types.Address.{to_evm_address}
use oif_starknet.Solver.Process.{is_evm_chain}
use oif_starknet.SolverManager.{
  SolverManager, Dials, Nodes, sources, new_solver_manager, get_evm_client, initialize_evm_clients,
  start,
}
use oif_starknet.SolverManager.Clients.{initialize_evm_clients-get_evm_client}
use oif_starknet.SolverManager.Listeners.{known, started_by, AllKnown}
use oif_starknet.SolverManager.Lifecycle.{start_ok}
use oif_starknet.Examples.Data.{geth, felts, getenv, network, settler_text, starknet}

abbrev networks : Networks
networks =
    (str "Ethereum", record (network (str "Ethereum") 1) { hyperlane_address = settler_text })
    ∷ starknet
    ∷ []

abbrev dials : Dials ℕ ℕ ℕ ℕ ℕ ℕ
dials = record {
  dial = λ url. ok 8545;
  new_provider = λ url. ok 5050;
  hex_to_ecdsa = λ s. ok 1;
  address_of = λ k. 10 ∷ [];
  new_transactor = λ k id. ok 2;
  with_from = λ a s. s;
  reads_key = λ s. true;
  new_account = λ p f k s. ok 3;
}

abbrev network_state : SolverNetworkState
network_state = record { last_indexed_block = 5; last_updated = [] }

abbrev nodes : Nodes
nodes = record {
  reaches = λ url. ok tt;
  block_number = λ url. ok 30;
  solver_state = λ source. ok (record { networks = (source, network_state) ∷ [] });
}

abbrev new_manager : SolverManager ℕ ℕ
new_manager = new_solver_manager

abbrev with_clients : SolverManager ℕ ℕ
with_clients = (initialize_evm_clients dials geth felts getenv nodes networks new_manager).1

initialised :
    initialize_evm_clients dials geth felts getenv nodes networks new_manager
    ≡ (ok tt, with_clients)
unfolding initialize_evm_clients contains to_lower
initialised = refl

is_evm : is_evm_chain networks 1 ≡ true
unfolding is_evm_chain by_chain_id contains to_lower
is_evm = refl

initialize_evm_clients_example : (c : ℕ) × (get_evm_client with_clients (to_uint64 1) ≡ ok c)
initialize_evm_clients_example =
    initialize_evm_clients-get_evm_client dials geth felts getenv nodes networks new_manager
      with_clients 1 initialised is_evm

abbrev after_start : Result (Unit {0}) × List GoString × SolverManager ℕ ℕ
after_start = start dials geth felts getenv nodes networks new_manager

starts :
    start dials geth felts getenv nodes networks new_manager ≡ (ok tt, after_start.1, after_start.2)
unfolding start contains to_lower new_solver_manager str_eq lookup_network to_evm_address trim_0x
    find_state get_env_with_default
starts = refl

start_example :
    AllKnown new_manager.solver_registry
    × (after_start.1
        ≡ new_manager.active_shutdowns
          ++ started_by (known networks sources) new_manager.solver_registry)
    × (after_start.2.active_shutdowns ≡ [])
    × (after_start.2.solver_registry ≡ new_manager.solver_registry)
start_example =
    start_ok dials geth felts getenv nodes networks new_manager after_start.2 after_start.1 starts
