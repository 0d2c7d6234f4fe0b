-- ===== src/SolverManager.antt =====
-- solver/solvercore/solver_manager.go: the clients, the registry of solvers, and the listeners that
-- run. The loops over the map of networks meet its entries in the order of the list, whichever that
-- is; `Options` of a solver, which nothing reads, is left out.
pub mod Clients
pub mod Lifecycle
pub mod Listeners
pub mod Registry
use Prim.Native.String.{String}
use oif_starknet.Prelude.{
  ℕ, Bool, true, false, List, [], ◌∷◌, ◌++◌, Option, none, some, not, ◌==◌, ◌||◌, if◌then◌else◌,
}
use oif_starknet.Prelude.Int.{ℤ}
use oif_starknet.Prelude.Result.{Result, ok, err, panic, errorf, wrap, wrapping, ◌>>=◌}
use oif_starknet.Prelude.Text.{GoString, str, str_eq, contains, to_lower, trim_0x}
use oif_starknet.Types.{AllowBlockLists}
use oif_starknet.Types.Address.{Address, Geth}
use oif_starknet.EnvUtil.{
  Env, get_conditional_account_env, get_env_with_default, get_starknet_solver_address,
  get_starknet_solver_public_key, get_starknet_solver_private_key,
}
use oif_starknet.Config.Networks.{NetworkConfig, Networks, lookup_network}
use oif_starknet.Config.SolverState.{SolverState}
use oif_starknet.StarknetUtil.{Felts}
use oif_starknet.Listener.Base.{ListenerConfig, new_listener_config}
use oif_starknet.Listener.Blocks.Listeners.{to_int64}
use oif_starknet.Listener.Resume.{new_evm_listener, new_starknet_listener}

pub record SolverConfig : Type 0 where
  pub enabled : Bool

abbrev pub SolverRegistry : Type 0
SolverRegistry = List (GoString × SolverConfig)

-- A shutdown function is named by the source whose listener it stops.
pub record SolverManager (Client Provider : Type 0) : Type 0 where
  -- the latest assignment first
  pub evm_clients : List (ℕ × Client)
  pub starknet_client : Option Provider
  pub active_shutdowns : List GoString
  pub solver_registry : SolverRegistry
  pub allow_block_lists : AllowBlockLists

abbrev pub hyperlane7683_name : GoString
hyperlane7683_name = str "hyperlane7683"

-- What the manager calls of go-ethereum and starknet.go.
pub record Dials (Client Provider Key Signer Account Felt : Type 0) : Type 0 where
  -- `ethclient.Dial` and `rpc.NewProvider`
  pub dial : GoString → Result Client
  pub new_provider : GoString → Result Provider
  -- `crypto.HexToECDSA` and `crypto.PubkeyToAddress`
  pub hex_to_ecdsa : GoString → Result Key
  pub address_of : Key → Address
  -- `bind.NewKeyedTransactorWithChainID`, and the signer with its `From` set
  pub new_transactor : Key → ℤ → Result Signer
  pub with_from : Address → Signer → Signer
  -- whether `SetString` reads the private key, and `account.NewAccount`
  pub reads_key : GoString → Bool
  pub new_account : Provider → Felt → GoString → GoString → Result Account

-- What the listeners' constructors call: the node of an address answers a dial, and its height; the
-- solver state is what is read when the listener of a source is made.
pub record Nodes : Type 0 where
  pub reaches : GoString → Result (Unit {0})
  pub block_number : GoString → Result ℕ
  pub solver_state : GoString → Result SolverState

-- `strings.Contains(strings.ToLower(networkName), "starknet")`
unfoldable pub is_starknet_network : GoString → Bool
is_starknet_network name = contains (to_lower name) (str "starknet")

unfoldable pub find_client : {Client : Type 0} → ℕ → List (ℕ × Client) → Option Client
find_client id [] = none
find_client id ((k, c) ∷ rest) =
    let others = find_client id rest in if k == id then some c else others

-- `SolverManager.solverRegistry[name]`, and its assignment.
unfoldable pub find_solver : GoString → SolverRegistry → Option SolverConfig
find_solver name [] = none
find_solver name ((k, c) ∷ rest) =
    let others = find_solver name rest in if str_eq k name then some c else others

unfoldable pub set_solver : GoString → SolverConfig → SolverRegistry → SolverRegistry
set_solver name c [] = (name, c) ∷ []
set_solver name c ((k, v) ∷ rest) =
    let others = set_solver name c rest in if str_eq k name then (k, c) ∷ rest else (k, v) ∷ others

unfoldable pub solver_status : SolverRegistry → List (GoString × Bool)
solver_status [] = []
solver_status ((k, c) ∷ rest) = (k, c.enabled) ∷ solver_status rest

abbrev pub sources : List GoString
sources = str "Base" ∷ str "Optimism" ∷ str "Arbitrum" ∷ str "Ethereum" ∷ str "Starknet" ∷ []

module _ {Client Provider : Type 0} where
  -- `NewSolverManager`
  unfoldable pub new_solver_manager : SolverManager Client Provider
  new_solver_manager = record {
    evm_clients = [];
    starknet_client = none;
    active_shutdowns = [];
    solver_registry = (hyperlane7683_name, record { enabled = true }) ∷ [];
    allow_block_lists = record { allow_list = []; block_list = [] };
  }

  unfoldable pub set_allow_block_lists :
      AllowBlockLists → SolverManager Client Provider → SolverManager Client Provider
  set_allow_block_lists lists sm = record sm { allow_block_lists = lists }

  unfoldable pub get_evm_client : SolverManager Client Provider → ℕ → Result Client
  unfolding find_client
  get_evm_client sm id = elim (find_client id sm.evm_clients) [
    | none ↦ err (errorf "EVM client not found for chain ID")
    | some c ↦ ok c
  ]

  unfoldable pub get_starknet_client : SolverManager Client Provider → Result Provider
  get_starknet_client sm = elim sm.starknet_client [
    | none ↦ err (errorf "starknet client not initialized")
    | some p ↦ ok p
  ]

  unfoldable pub add_solver :
      GoString → SolverConfig → SolverManager Client Provider → SolverManager Client Provider
  unfolding set_solver
  add_solver name c sm = record sm { solver_registry = set_solver name c sm.solver_registry }

  -- `EnableSolver` and `DisableSolver`
  unfoldable pub set_enabled :
      Bool
      → GoString
      → SolverManager Client Provider
      → Result (Unit {0}) × SolverManager Client Provider
  unfolding find_solver set_solver
  set_enabled enabled name sm = elim (find_solver name sm.solver_registry) [
    | none ↦ (err (errorf "solver not found"), sm)
    | some c ↦ (
      ok tt,
      record sm {
        solver_registry = set_solver name (record c { enabled = enabled }) sm.solver_registry;
      },
    )
  ]

  unfoldable pub enable_solver :
      GoString → SolverManager Client Provider → Result (Unit {0}) × SolverManager Client Provider
  unfolding set_enabled
  enable_solver = set_enabled true

  unfoldable pub disable_solver :
      GoString → SolverManager Client Provider → Result (Unit {0}) × SolverManager Client Provider
  unfolding set_enabled
  disable_solver = set_enabled false

  unfoldable pub get_solver_status : SolverManager Client Provider → List (GoString × Bool)
  unfolding solver_status
  get_solver_status sm = solver_status sm.solver_registry

  -- `Shutdown`: the listeners that it stops, and the manager behind it.
  unfoldable pub shutdown :
      SolverManager Client Provider → List GoString × SolverManager Client Provider
  shutdown sm = (sm.active_shutdowns, record sm { active_shutdowns = [] })

module _ {Client Provider Key Signer Account Felt : Type 0}
    (d : Dials Client Provider Key Signer Account Felt) (g : Geth) (fs : Felts Felt) (getenv : Env)
    (nodes : Nodes) (networks : Networks) where
  unfoldable pub after_dial :
      ℕ
      → Result Client
      → (List (ℕ × Client) → Result (Unit {0}) × List (ℕ × Client))
      → List (ℕ × Client)
      → Result (Unit {0}) × List (ℕ × Client)
  after_dial chain_id (ok c) next clients = next ((chain_id, c) ∷ clients)
  after_dial chain_id (err e) next clients = (err (wrap "failed to create EVM client" e), clients)
  after_dial chain_id (panic p) next clients = (panic p, clients)

  -- The loop of `initializeEVMClients`; an error leaves the clients that were stored before it.
  unfoldable pub dial_all : Networks → List (ℕ × Client) → Result (Unit {0}) × List (ℕ × Client)
  unfolding after_dial is_starknet_network
  dial_all [] clients = (ok tt, clients)
  dial_all ((name, n) ∷ rest) clients =
      let next = dial_all rest in
      if is_starknet_network name
      then next clients
      else after_dial n.chain_id (d.dial n.rpc_url) next clients

  unfoldable pub initialize_evm_clients :
      SolverManager Client Provider → Result (Unit {0}) × SolverManager Client Provider
  unfolding dial_all
  initialize_evm_clients sm =
      let (r, clients) = dial_all networks sm.evm_clients in
      (r, record sm { evm_clients = clients })

  -- The loop of `initializeStarknetClients`, up to the first Starknet network.
  unfoldable pub first_provider : Networks → Option (Result Provider)
  unfolding is_starknet_network
  first_provider [] = none
  first_provider ((name, n) ∷ rest) =
      let others = first_provider rest in
      if is_starknet_network name
      then some (wrapping "failed to create Starknet provider" (d.new_provider n.rpc_url))
      else others

  unfoldable pub with_starknet_provider :
      Option (Result Provider)
      → SolverManager Client Provider
      → Result (Unit {0}) × SolverManager Client Provider
  with_starknet_provider none sm = (ok tt, sm)
  with_starknet_provider (some (ok p)) sm = (ok tt, record sm { starknet_client = some p })
  with_starknet_provider (some (err e)) sm = (err e, sm)
  with_starknet_provider (some (panic p)) sm = (panic p, sm)

  unfoldable pub initialize_starknet_clients :
      SolverManager Client Provider → Result (Unit {0}) × SolverManager Client Provider
  unfolding first_provider with_starknet_provider
  initialize_starknet_clients = with_starknet_provider (first_provider networks)

  unfoldable pub get_evm_signer : ℕ → Result Signer
  unfolding to_int64
  get_evm_signer chain_id =
      let key_text = get_conditional_account_env getenv (str "SOLVER_PRIVATE_KEY") in
      if str_eq key_text []
      then err (errorf "SOLVER_PRIVATE_KEY environment variable not set")
      else do
        key ← wrapping "failed to parse solver private key" (d.hex_to_ecdsa (trim_0x key_text))
        signer ← wrapping "failed to create signer" (d.new_transactor key (to_int64 chain_id))
        ok (d.with_from (d.address_of key) signer)

  unfoldable pub starknet_account : Provider → Result Account
  starknet_account provider =
      let public_key = get_starknet_solver_public_key getenv in
      let address = get_starknet_solver_address getenv in
      let private_key = get_starknet_solver_private_key getenv in
      if str_eq public_key [] || str_eq address [] || str_eq private_key []
      then err (errorf "missing STARKNET_SOLVER_* env vars for Starknet signer")
      else do
        felt ← wrapping "invalid STARKNET_SOLVER_ADDRESS" (fs.hex_to_felt address)
        (if d.reads_key private_key
            then wrapping "failed to create Starknet account"
                (d.new_account provider felt public_key private_key)
            else err (errorf "failed to parse STARKNET_SOLVER_PRIVATE_KEY"))

  unfoldable pub get_starknet_signer : SolverManager Client Provider → Result Account
  unfolding get_starknet_client starknet_account
  get_starknet_signer sm = get_starknet_client sm >>= starknet_account

  unfoldable pub get_starknet_hyperlane_address : Result GoString
  get_starknet_hyperlane_address =
      let address = get_env_with_default getenv (str "STARKNET_HYPERLANE_ADDRESS") [] in
      if str_eq address []
      then err (errorf "no STARKNET_HYPERLANE_ADDRESS set in .env")
      else ok address

  -- `base.NewListenerConfig` of a source, with the settings of its network.
  unfoldable pub listener_config_of : GoString → GoString → NetworkConfig → ListenerConfig
  unfolding new_listener_config
  listener_config_of address source n =
      new_listener_config address source n.solver_start_block n.poll_interval n.confirmation_blocks
        n.max_block_range

  -- Making and starting the listener of a source. `Start` itself gives no error.
  unfoldable pub start_listener : GoString → NetworkConfig → Result (Unit {0})
  unfolding get_starknet_hyperlane_address listener_config_of new_evm_listener new_starknet_listener
  start_listener source n =
      if str_eq source (str "Starknet")
      then (do
        address ← wrapping "failed to get Starknet Hyperlane address" get_starknet_hyperlane_address
        listener ← wrapping "failed to create Starknet listener" (
            new_starknet_listener fs (listener_config_of address source n) (nodes.reaches n.rpc_url)
              (nodes.block_number n.rpc_url) (nodes.solver_state source))
        ok tt)
      else (do
        listener ← wrapping "failed to create EVM listener" (
            new_evm_listener g (listener_config_of (g.hex n.hyperlane_address) source n)
              (nodes.reaches n.rpc_url) (nodes.block_number n.rpc_url) (nodes.solver_state source))
        ok tt)

  -- The loop over the sources: a source without a network is passed over.
  unfoldable pub after_start :
      GoString
      → Result (Unit {0})
      → (List GoString → Result (Unit {0}) × List GoString)
      → List GoString
      → Result (Unit {0}) × List GoString
  after_start source (ok t) next active = next (active ++ (source ∷ []))
  after_start source (err e) next active = (err e, active)
  after_start source (panic p) next active = (panic p, active)

  unfoldable pub start_source :
      GoString
      → Option NetworkConfig
      → (List GoString → Result (Unit {0}) × List GoString)
      → List GoString
      → Result (Unit {0}) × List GoString
  unfolding after_start start_listener
  start_source source none next active = next active
  start_source source (some n) next active =
      after_start source (start_listener source n) next active

  unfoldable pub start_listeners : List GoString → List GoString → Result (Unit {0}) × List GoString
  unfolding start_source
  start_listeners [] active = (ok tt, active)
  start_listeners (source ∷ rest) active =
      start_source source (lookup_network source networks) (start_listeners rest) active

  unfoldable pub initialize_hyperlane7683 :
      SolverManager Client Provider → Result (Unit {0}) × SolverManager Client Provider
  unfolding start_listeners
  initialize_hyperlane7683 sm =
      let (r, active) = start_listeners sources sm.active_shutdowns in
      (r, record sm { active_shutdowns = active })

  unfoldable pub initialize_solver :
      GoString → SolverManager Client Provider → Result (Unit {0}) × SolverManager Client Provider
  unfolding initialize_hyperlane7683
  initialize_solver name sm =
      if str_eq name hyperlane7683_name
      then initialize_hyperlane7683 sm
      else (err (errorf "unknown solver"), sm)

  -- One step of `InitializeSolvers`, and the steps behind it.
  unfoldable pub and_then :
      String
      → Result (Unit {0}) × SolverManager Client Provider
      → (SolverManager Client Provider → Result (Unit {0}) × SolverManager Client Provider)
      → Result (Unit {0}) × SolverManager Client Provider
  and_then text (ok t, sm) next = next sm
  and_then text (err e, sm) next = (err (wrap text e), sm)
  and_then text (panic p, sm) next = (panic p, sm)

  unfoldable pub initialize_enabled :
      SolverRegistry
      → SolverManager Client Provider
      → Result (Unit {0}) × SolverManager Client Provider
  unfolding and_then initialize_solver
  initialize_enabled [] sm = (ok tt, sm)
  initialize_enabled ((name, c) ∷ rest) sm =
      let next = initialize_enabled rest in
      if c.enabled
      then and_then "failed to initialize solver" (initialize_solver name sm) next
      else next sm

  unfoldable pub initialize_solvers :
      SolverManager Client Provider → Result (Unit {0}) × SolverManager Client Provider
  unfolding initialize_enabled initialize_evm_clients initialize_starknet_clients
  initialize_solvers sm =
      and_then "failed to initialize EVM clients" (initialize_evm_clients sm) λ sm1.
        and_then "failed to initialize Starknet client" (initialize_starknet_clients sm1)
          λ sm2. initialize_enabled sm2.solver_registry sm2

  -- `Start`, whose context is cancelled at some time: the listeners that are stopped, too.
  unfoldable pub after_initialize :
      Result (Unit {0}) × SolverManager Client Provider
      → Result (Unit {0}) × List GoString × SolverManager Client Provider
  unfolding shutdown
  after_initialize (ok t, sm) = let (stopped, sm') = shutdown sm in (ok tt, stopped, sm')
  after_initialize (err e, sm) = (err (wrap "failed to initialize solvers" e), [], sm)
  after_initialize (panic p, sm) = (panic p, [], sm)

  unfoldable pub start :
      SolverManager Client Provider
      → Result (Unit {0}) × List GoString × SolverManager Client Provider
  unfolding after_initialize initialize_solvers
  start sm = after_initialize (initialize_solvers sm)
