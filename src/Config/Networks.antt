-- ===== src/Config/Networks.antt =====
-- solver/solvercore/config/networks.go. The map `Networks` is the list of its entries in the order
-- in which a `range` loop meets them: Go leaves that order open, so a theorem about a search in the
-- map is stated for lists in any order.
pub mod Lookup
use oif_starknet.Prelude.{
  ℕ, ◌≡◌, Bool, true, false, List, [], ◌∷◌, Option, none, some, ◌==◌, if◌then◌else◌, map,
}
use oif_starknet.Prelude.Int.{ℤ, pos}
use oif_starknet.Prelude.Result.{Result, ok, err, errorf, ◌>>=◌}
use oif_starknet.Prelude.Text.{GoString, str, str_eq}
use oif_starknet.Types.Address.{Address, Geth}
use oif_starknet.EnvUtil.{
  Env, get_conditional_env, get_env_uint64, get_env_uint64_any, get_env_with_default,
  get_conditional_uint64, get_conditional_int64, get_env_int,
}

pub record NetworkConfig : Type 0 where
  pub name : GoString
  pub rpc_url : GoString
  pub chain_id : ℕ
  pub hyperlane_address : Address
  pub hyperlane_domain : ℕ
  pub fork_start_block : ℕ
  pub solver_start_block : ℤ
  pub poll_interval : ℤ
  pub confirmation_blocks : ℕ
  pub max_block_range : ℕ

abbrev pub Networks : Type 0
Networks = List (GoString × NetworkConfig)

-- The package's variables `Networks` and `networksInitialized`.
pub record Config : Type 0 where
  pub networks : Networks
  pub networks_initialized : Bool

abbrev pub default_max_block_range : ℕ
default_max_block_range = 10

abbrev pub starknet_default_max_block_range : ℕ
starknet_default_max_block_range = 100

module _ (g : Geth) (getenv : Env) where
  unfoldable pub ethereum_network : NetworkConfig
  ethereum_network = record {
    name = str "Ethereum";
    rpc_url = get_conditional_env getenv (str "ETHEREUM_RPC_URL") (str "http://localhost:8545");
    chain_id =
        get_env_uint64_any getenv (str "ETHEREUM_CHAIN_ID" ∷ str "SEPOLIA_CHAIN_ID" ∷ []) 11155111;
    hyperlane_address = g.hex_to_address (
        get_env_with_default getenv (str "EVM_HYPERLANE_ADDRESS")
          (str "0xf614c6bF94b022E16BEF7dBecF7614FFD2b201d3"));
    hyperlane_domain =
        get_env_uint64_any getenv (str "ETHEREUM_DOMAIN_ID" ∷ str "SEPOLIA_DOMAIN_ID" ∷ [])
          11155111;
    fork_start_block = get_conditional_uint64 getenv (str "ETHEREUM_SOLVER_START_BLOCK") 0 9121214;
    solver_start_block =
        get_conditional_int64 getenv (str "ETHEREUM_SOLVER_START_BLOCK") (pos 0) (pos 9121214);
    poll_interval = get_env_int getenv (str "POLL_INTERVAL_MS") (pos 1000);
    confirmation_blocks = get_env_uint64 getenv (str "CONFIRMATION_BLOCKS") 0;
    max_block_range = get_env_uint64 getenv (str "MAX_BLOCK_RANGE") default_max_block_range;
  }

  unfoldable pub optimism_network : NetworkConfig
  optimism_network = record {
    name = str "Optimism";
    rpc_url = get_conditional_env getenv (str "OPTIMISM_RPC_URL") (str "http://localhost:8546");
    chain_id = get_env_uint64 getenv (str "OPTIMISM_CHAIN_ID") 11155420;
    hyperlane_address = g.hex_to_address (
        get_env_with_default getenv (str "EVM_HYPERLANE_ADDRESS")
          (str "0xf614c6bF94b022E16BEF7dBecF7614FFD2b201d3"));
    hyperlane_domain = get_env_uint64 getenv (str "OPTIMISM_DOMAIN_ID") 11155420;
    fork_start_block = get_conditional_uint64 getenv (str "OPTIMISM_SOLVER_START_BLOCK") 0 32529526;
    solver_start_block =
        get_conditional_int64 getenv (str "OPTIMISM_SOLVER_START_BLOCK") (pos 0) (pos 32529526);
    poll_interval = get_env_int getenv (str "POLL_INTERVAL_MS") (pos 1000);
    confirmation_blocks = get_env_uint64 getenv (str "CONFIRMATION_BLOCKS") 0;
    max_block_range = get_env_uint64 getenv (str "MAX_BLOCK_RANGE") default_max_block_range;
  }

  unfoldable pub arbitrum_network : NetworkConfig
  arbitrum_network = record {
    name = str "Arbitrum";
    rpc_url = get_conditional_env getenv (str "ARBITRUM_RPC_URL") (str "http://localhost:8547");
    chain_id = get_env_uint64 getenv (str "ARBITRUM_CHAIN_ID") 421614;
    hyperlane_address = g.hex_to_address (
        get_env_with_default getenv (str "EVM_HYPERLANE_ADDRESS")
          (str "0xf614c6bF94b022E16BEF7dBecF7614FFD2b201d3"));
    hyperlane_domain = get_env_uint64 getenv (str "ARBITRUM_DOMAIN_ID") 421614;
    fork_start_block =
        get_conditional_uint64 getenv (str "ARBITRUM_SOLVER_START_BLOCK") 0 190326088;
    solver_start_block =
        get_conditional_int64 getenv (str "ARBITRUM_SOLVER_START_BLOCK") (pos 0) (pos 190326088);
    poll_interval = get_env_int getenv (str "POLL_INTERVAL_MS") (pos 1000);
    confirmation_blocks = get_env_uint64 getenv (str "CONFIRMATION_BLOCKS") 0;
    max_block_range = get_env_uint64 getenv (str "MAX_BLOCK_RANGE") default_max_block_range;
  }

  unfoldable pub base_network : NetworkConfig
  base_network = record {
    name = str "Base";
    rpc_url = get_conditional_env getenv (str "BASE_RPC_URL") (str "http://localhost:8548");
    chain_id = get_env_uint64 getenv (str "BASE_CHAIN_ID") 84532;
    hyperlane_address = g.hex_to_address (
        get_env_with_default getenv (str "EVM_HYPERLANE_ADDRESS")
          (str "0xf614c6bF94b022E16BEF7dBecF7614FFD2b201d3"));
    hyperlane_domain = get_env_uint64 getenv (str "BASE_DOMAIN_ID") 84532;
    fork_start_block = get_conditional_uint64 getenv (str "BASE_SOLVER_START_BLOCK") 0 30546661;
    solver_start_block =
        get_conditional_int64 getenv (str "BASE_SOLVER_START_BLOCK") (pos 0) (pos 30546661);
    poll_interval = get_env_int getenv (str "POLL_INTERVAL_MS") (pos 1000);
    confirmation_blocks = get_env_uint64 getenv (str "CONFIRMATION_BLOCKS") 0;
    max_block_range = get_env_uint64 getenv (str "MAX_BLOCK_RANGE") default_max_block_range;
  }

  unfoldable pub starknet_network : NetworkConfig
  starknet_network = record {
    name = str "Starknet";
    rpc_url = get_conditional_env getenv (str "STARKNET_RPC_URL") (str "http://localhost:5050");
    chain_id = get_env_uint64 getenv (str "STARKNET_CHAIN_ID") 23448591;
    hyperlane_address =
        g.hex_to_address (get_env_with_default getenv (str "STARKNET_HYPERLANE_ADDRESS") []);
    hyperlane_domain = get_env_uint64 getenv (str "STARKNET_DOMAIN_ID") 23448591;
    fork_start_block = get_conditional_uint64 getenv (str "STARKNET_SOLVER_START_BLOCK") 0 1850850;
    solver_start_block =
        get_conditional_int64 getenv (str "STARKNET_SOLVER_START_BLOCK") (pos 0) (pos 1850850);
    poll_interval =
        get_env_int getenv (str "STARKNET_POLL_INTERVAL_MS")
          (get_env_int getenv (str "POLL_INTERVAL_MS") (pos 2000));
    confirmation_blocks = get_env_uint64 getenv (str "STARKNET_CONFIRMATION_BLOCKS") 0;
    max_block_range =
        get_env_uint64 getenv (str "STARKNET_MAX_BLOCK_RANGE")
          (get_env_uint64 getenv (str "MAX_BLOCK_RANGE") starknet_default_max_block_range);
  }

  unfoldable pub env_networks : Networks
  unfolding ethereum_network optimism_network arbitrum_network base_network starknet_network
  env_networks =
      (str "Ethereum", ethereum_network)
      ∷ (str "Optimism", optimism_network)
      ∷ (str "Arbitrum", arbitrum_network)
      ∷ (str "Base", base_network)
      ∷ (str "Starknet", starknet_network)
      ∷ []

  -- `initializeNetworks`, behind the test of `InitializeNetworks` and `ensureInitialized`.
  unfoldable pub initialize_networks : Config → Config
  initialize_networks c =
      if c.networks_initialized
      then c
      else record { networks = env_networks; networks_initialized = true }

unfoldable pub reset_networks : Config → Config
reset_networks c = record { networks = []; networks_initialized = false }

-- `Networks[name]`
unfoldable pub lookup_network : GoString → Networks → Option NetworkConfig
lookup_network name [] = none
lookup_network name ((k, n) ∷ rest) = if str_eq k name then some n else lookup_network name rest

-- The first entry of a `range` loop that passes the loop's test.
unfoldable pub find_network : (NetworkConfig → Bool) → Networks → Option (GoString × NetworkConfig)
find_network test [] = none
find_network test ((k, n) ∷ rest) = if test n then some (k, n) else find_network test rest

unfoldable pub by_chain_id : ℕ → Networks → Option (GoString × NetworkConfig)
unfolding find_network
by_chain_id chain_id = find_network (λ n. n.chain_id == chain_id)

unfoldable pub by_domain : ℕ → Networks → Option (GoString × NetworkConfig)
unfolding find_network
by_domain domain = find_network (λ n. n.hyperlane_domain == domain)

unfoldable pub found_or {ℓ κ} : {A : Type ℓ} {B : Type κ} → Result B → (A → B) → Option A → Result B
found_or missing f none = missing
found_or missing f (some n) = ok (f n)

module _ (networks : Networks) where
  unfoldable pub get_network_config : GoString → Result NetworkConfig
  unfolding lookup_network found_or
  get_network_config name =
      found_or (err (errorf "network not found")) (λ n. n) (lookup_network name networks)

  unfoldable pub get_rpc_url : GoString → Result GoString
  get_rpc_url name = do config ← get_network_config name; ok config.rpc_url

  unfoldable pub get_chain_id : GoString → Result ℕ
  get_chain_id name = do config ← get_network_config name; ok config.chain_id

  unfoldable pub get_hyperlane_address : GoString → Result Address
  get_hyperlane_address name = do config ← get_network_config name; ok config.hyperlane_address

  unfoldable pub get_hyperlane_domain : GoString → Result ℕ
  get_hyperlane_domain name = do config ← get_network_config name; ok config.hyperlane_domain

  unfoldable pub get_fork_start_block : GoString → Result ℕ
  get_fork_start_block name = do config ← get_network_config name; ok config.fork_start_block

  unfoldable pub get_solver_start_block : GoString → Result ℤ
  get_solver_start_block name = do config ← get_network_config name; ok config.solver_start_block

  unfoldable pub get_listener_config : GoString → Result (ℤ × ℕ × ℕ)
  get_listener_config name = do
    config ← get_network_config name
    ok (config.poll_interval, config.confirmation_blocks, config.max_block_range)

  unfoldable pub get_rpc_url_by_chain_id : ℕ → Result GoString
  unfolding by_chain_id found_or
  get_rpc_url_by_chain_id chain_id =
      found_or (err (errorf "network not found for chain ID"))
        (λ (e : GoString × NetworkConfig). e.1.rpc_url) (by_chain_id chain_id networks)

  unfoldable pub get_hyperlane_address_by_chain_id : ℕ → Result Address
  unfolding by_chain_id found_or
  get_hyperlane_address_by_chain_id chain_id =
      found_or (err (errorf "network not found for chain ID"))
        (λ (e : GoString × NetworkConfig). e.1.hyperlane_address) (by_chain_id chain_id networks)

  unfoldable pub get_network_names : List GoString
  get_network_names = map (λ (e : GoString × NetworkConfig). e.0) networks

  unfoldable pub validate_network_name : GoString → Bool
  unfolding lookup_network
  validate_network_name name = elim (lookup_network name networks) [ none ↦ false | some n ↦ true ]
