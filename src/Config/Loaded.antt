-- ===== src/Config/Loaded.antt =====
-- solver/solvercore/config/config.go: the configuration from the environment, after the `.env` file
-- has been read into it.
use oif_starknet.Prelude.{
  ℕ, ◌+◌, ◌-◌, ◌*◌, ◌^◌, ◌≡◌, refl, Bool, true, false, not, ◌&&◌, List, [], ◌∷◌, ◌++◌, Option, none,
  some, ltb, leb, if◌then◌else◌, Bool-cases, inl, inr, ◌==◌,
}
use oif_starknet.Prelude.Int.{ℤ, pos, neg}
use oif_starknet.Prelude.Text.{GoString, str, str_eq, str_eq_iff, to_upper}
use oif_starknet.EnvUtil.{Env, or_default, or_parsed}

pub record SolverSwitch : Type 0 where
  pub enabled : Bool

pub record ProgramConfig : Type 0 where
  pub solvers : List (GoString × SolverSwitch)
  pub log_level : GoString
  pub log_format : GoString
  pub max_retries : ℤ

-- The digits of a number, all of them, read on from `n`.
unfoldable pub all_digits : ℕ → GoString → Option ℕ
all_digits n [] = some n
all_digits n (c ∷ s) =
    let rest = all_digits (n * 10 + (c - 48)) s in if leb 48 c && leb c 57 then rest else none

unfoldable pub non_empty_digits : GoString → Option ℕ
unfolding all_digits
non_empty_digits [] = none
non_empty_digits (c ∷ s) = all_digits 0 (c ∷ s)

unfoldable pub positive_int : Option ℕ → Option ℤ
positive_int none = none
positive_int (some n) = if ltb n (2 ^ 63) then some (pos n) else none

unfoldable pub negative_int : Option ℕ → Option ℤ
negative_int none = none
negative_int (some n) = if leb n (2 ^ 63) then some (neg n) else none

-- `strconv.Atoi`: a sign or none, and digits.
unfoldable pub atoi : GoString → Option ℤ
unfolding non_empty_digits positive_int negative_int
atoi [] = none
atoi (c ∷ s) =
    if c == 43
    then positive_int (non_empty_digits s)
    else if c == 45
    then negative_int (non_empty_digits s)
    else positive_int (non_empty_digits (c ∷ s))

abbrev pub default_solvers : List (GoString × SolverSwitch)
default_solvers = (str "hyperlane7683", record { enabled = true }) ∷ []

-- What a variable makes of a switch: any other text than these two leaves it.
unfoldable pub switched : GoString → SolverSwitch → SolverSwitch
switched value s =
    if str_eq value (str "true")
    then record { enabled = true }
    else if str_eq value (str "false")
    then record { enabled = false }
    else s

unfoldable pub find_switch : GoString → List (GoString × SolverSwitch) → Option SolverSwitch
find_switch name [] = none
find_switch name ((k, s) ∷ rest) = if str_eq k name then some s else find_switch name rest

unfoldable pub enabled_or_not : Option SolverSwitch → Bool
enabled_or_not none = false
enabled_or_not (some s) = s.enabled

-- `IsSolverEnabled`
unfoldable pub is_solver_enabled : ProgramConfig → GoString → Bool
unfolding find_switch enabled_or_not
is_solver_enabled c name = enabled_or_not (find_switch name c.solvers)

switched-enabled :
    (value : GoString)
    → (switched value (record { enabled = true })).enabled ≡ not (str_eq value (str "false"))
unfolding switched str_eq
switched-enabled value = elim (Bool-cases (str_eq value (str "true"))) [
  | inl e ↦ let same = (str_eq_iff value (str "true")).0 e in rw same refl
  | inr e ↦ elim (Bool-cases (str_eq value (str "false"))) [
    | inl f ↦ rw (e, f) refl
    | inr f ↦ rw (e, f) refl
  ]
]

module _ (getenv : Env) where
  -- The loop over the solvers: a text that is empty is none of the two.
  unfoldable pub switch_all : List (GoString × SolverSwitch) → List (GoString × SolverSwitch)
  unfolding switched
  switch_all [] = []
  switch_all ((name, s) ∷ rest) =
      (name, switched (getenv (str "SOLVER_" ++ (to_upper name ++ str "_ENABLED"))) s)
      ∷ switch_all rest

  -- `LoadConfig`
  unfoldable pub load_config : ProgramConfig
  unfolding switch_all atoi or_default or_parsed
  load_config = record {
    solvers = switch_all default_solvers;
    log_level = or_default (getenv (str "LOG_LEVEL")) (str "info");
    log_format = or_default (getenv (str "LOG_FORMAT")) (str "text");
    max_retries = or_parsed atoi (pos 5) (getenv (str "MAX_RETRIES"));
  }

  -- The solver hyperlane7683 is enabled unless its variable says false, and no other solver is.
  pub is_solver_enabled-load_config :
      (name : GoString)
      → is_solver_enabled load_config name ≡ (
          str_eq (str "hyperlane7683") name
          && not (str_eq (getenv (str "SOLVER_HYPERLANE7683_ENABLED")) (str "false")))
  unfolding is_solver_enabled load_config switch_all find_switch enabled_or_not to_upper
  is_solver_enabled-load_config name = elim (Bool-cases (str_eq (str "hyperlane7683") name)) [
    | inl e ↦ rw e (switched-enabled (getenv (str "SOLVER_HYPERLANE7683_ENABLED")))
    | inr e ↦ rw e refl
  ]
