-- ===== src/EnvUtil.antt =====
-- solver/pkg/envutil/envutil.go: environment variables, and the choice between the live and the
-- local set of them by `IS_DEVNET`. The environment is a function from names to values; a
-- variable that is not set has the empty value, as for `os.Getenv`.
pub mod Laws
use oif_starknet.Prelude.{ℕ, Bool, List, [], ◌∷◌, ◌++◌, Option, none, some, if◌then◌else◌}
use oif_starknet.Prelude.Int.{ℤ}
use oif_starknet.Prelude.Text.{GoString, str, str_eq}
use oif_starknet.Prelude.Scan.{scan_uint64, scan_int64}

abbrev pub Env : Type 0
Env = GoString → GoString

abbrev pub true_value : GoString
true_value = str "true"

abbrev pub is_devnet_key : GoString
is_devnet_key = str "IS_DEVNET"

abbrev pub local_prefix : GoString
local_prefix = str "LOCAL_"

-- `if value := os.Getenv(key); value != "" { return value }; return defaultValue`
unfoldable pub or_default : GoString → GoString → GoString
or_default [] default_value = default_value
or_default (c ∷ s) default_value = c ∷ s

-- The same with a parse of the value, which may fail.
unfoldable pub or_parsed {ℓ} : {A : Type ℓ} → (GoString → Option A) → A → GoString → A
or_parsed parse default_value [] = default_value
or_parsed parse default_value (c ∷ s) = elim (parse (c ∷ s)) [ none ↦ default_value | some n ↦ n ]

module _ (getenv : Env) where
  unfoldable pub is_devnet : Bool
  is_devnet = str_eq (getenv is_devnet_key) true_value

  unfoldable pub target_key : GoString → GoString
  unfolding is_devnet
  target_key key = if is_devnet then local_prefix ++ key else key

  unfoldable pub get_conditional_env : GoString → GoString → GoString
  unfolding target_key or_default
  get_conditional_env key default_value = or_default (getenv (target_key key)) default_value

  unfoldable pub get_conditional_account_env : GoString → GoString
  unfolding get_conditional_env
  get_conditional_account_env key = get_conditional_env key []

  unfoldable pub get_conditional_uint64 : GoString → ℕ → ℕ → ℕ
  unfolding target_key is_devnet or_parsed
  get_conditional_uint64 key live_default local_default =
      or_parsed scan_uint64 (if is_devnet then local_default else live_default)
        (getenv (target_key key))

  unfoldable pub get_conditional_int64 : GoString → ℤ → ℤ → ℤ
  unfolding target_key is_devnet or_parsed
  get_conditional_int64 key live_default local_default =
      or_parsed scan_int64 (if is_devnet then local_default else live_default)
        (getenv (target_key key))

  unfoldable pub get_env_with_default : GoString → GoString → GoString
  unfolding or_default
  get_env_with_default key default_value = or_default (getenv key) default_value

  unfoldable pub get_env_uint64 : GoString → ℕ → ℕ
  unfolding or_parsed
  get_env_uint64 key default_value = or_parsed scan_uint64 default_value (getenv key)

  -- The first of the keys whose value is there and parses.
  unfoldable pub get_env_uint64_any : List GoString → ℕ → ℕ
  unfolding or_parsed
  get_env_uint64_any [] default_value = default_value
  get_env_uint64_any (k ∷ rest) default_value =
      or_parsed scan_uint64 (get_env_uint64_any rest default_value) (getenv k)

  unfoldable pub get_env_int : GoString → ℤ → ℤ
  unfolding or_parsed
  get_env_int key default_value = or_parsed scan_int64 default_value (getenv key)

  unfoldable pub get_starknet_solver_address : GoString
  unfolding get_conditional_env
  get_starknet_solver_address =
      get_conditional_env (str "STARKNET_SOLVER_ADDRESS")
        (str "0x2af9427c5a277474c079a1283c880ee8a6f0f8fbf73ce969c08d88befec1bba")

  unfoldable pub get_starknet_rpc_url : GoString
  unfolding get_conditional_env
  get_starknet_rpc_url = get_conditional_env (str "STARKNET_RPC_URL") (str "http://localhost:5050")

  unfoldable pub get_solver_public_key : GoString
  unfolding get_conditional_account_env
  get_solver_public_key = get_conditional_account_env (str "SOLVER_PUB_KEY")

  unfoldable pub get_solver_private_key : GoString
  unfolding get_conditional_account_env
  get_solver_private_key = get_conditional_account_env (str "SOLVER_PRIVATE_KEY")

  unfoldable pub get_starknet_solver_public_key : GoString
  unfolding get_conditional_account_env
  get_starknet_solver_public_key = get_conditional_account_env (str "STARKNET_SOLVER_PUBLIC_KEY")

  unfoldable pub get_starknet_solver_private_key : GoString
  unfolding get_conditional_account_env
  get_starknet_solver_private_key = get_conditional_account_env (str "STARKNET_SOLVER_PRIVATE_KEY")
