-- ===== src/SolverManager/Registry.antt =====
-- Enabling and disabling a solver of the registry.
use oif_starknet.Prelude.{
  ◌≡◌, ◌⊎◌, inl, inr, refl, Bool, List, [], ◌∷◌, Option, none, some, if◌then◌else◌, arith,
}
use oif_starknet.Prelude.Result.{Result, ok, err, errorf}
use oif_starknet.Prelude.Text.{GoString, str_eq, str_eq_iff}
use oif_starknet.SolverManager.{
  SolverManager, SolverRegistry, SolverConfig, find_solver, set_solver, set_enabled, solver_status,
  get_solver_status,
}

find_solver-set_solver :
    (name k : GoString) (c : SolverConfig) (r : SolverRegistry)
    → find_solver k (set_solver name c r) ≡ (if str_eq name k then some c else find_solver k r)
unfolding find_solver set_solver
find_solver-set_solver name k c [] = refl
find_solver-set_solver name k c ((j, x) ∷ r) =
    let others = find_solver-set_solver name k c r in
    ground (arith, str_eq_iff j name, str_eq_iff j k, str_eq_iff name k, others)

-- `status[name]`, and whether there is one.
abbrev pub status_of : GoString → List (GoString × Bool) → Option Bool
status_of name [] = none
status_of name ((k, b) ∷ rest) =
    let others = status_of name rest in if str_eq k name then some b else others

abbrev enabled_of : Option SolverConfig → Option Bool
enabled_of none = none
enabled_of (some c) = some c.enabled

status_of-solver_status :
    (name : GoString) (r : SolverRegistry)
    → status_of name (solver_status r) ≡ enabled_of (find_solver name r)
unfolding solver_status find_solver
status_of-solver_status name [] = refl
status_of-solver_status name ((k, c) ∷ r) =
    let others = status_of-solver_status name r in ground (arith, others)

module _ {Client Provider : Type 0} where
  abbrev pub EnabledAs :
      Bool
      → GoString
      → SolverManager Client Provider
      → Result (Unit {0}) × SolverManager Client Provider
      → Type 0
  EnabledAs b name sm r =
      ((status_of name (get_solver_status sm) ≡ none) × (r ≡ (err (errorf "solver not found"), sm)))
      ⊎ ((sm' : SolverManager Client Provider) × (r ≡ (ok tt, sm'))
          × ((k : GoString)
              → status_of k (get_solver_status sm')
                ≡ (if str_eq name k then some b else status_of k (get_solver_status sm)))
          × (sm'.evm_clients ≡ sm.evm_clients)
          × (sm'.starknet_client ≡ sm.starknet_client)
          × (sm'.active_shutdowns ≡ sm.active_shutdowns)
          × (sm'.allow_block_lists ≡ sm.allow_block_lists))

  -- Enabling or disabling a solver: if the registry has no solver of the name, the result is an
  -- error, and the manager is as it was. Otherwise it succeeds; the status of that name is then the
  -- one that was set, that of every other name is the one that it was, and the clients, the
  -- listeners and the lists stay.
  pub set_enabled_lem :
      (b : Bool) (name : GoString) (sm : SolverManager Client Provider)
      → EnabledAs b name sm (set_enabled b name sm)
  unfolding set_enabled get_solver_status
  set_enabled_lem b name sm =
      by_found (find_solver name sm.solver_registry) refl
        (status_of-solver_status name sm.solver_registry)
    where
      others :
          (c : SolverConfig) (k : GoString)
          → status_of k
              (solver_status (set_solver name (record c { enabled = b }) sm.solver_registry))
            ≡ (if str_eq name k then some b else status_of k (solver_status sm.solver_registry))
      others c k = ground (
        arith,
        status_of-solver_status k (set_solver name (record c { enabled = b }) sm.solver_registry),
        find_solver-set_solver name k (record c { enabled = b }) sm.solver_registry,
        status_of-solver_status k sm.solver_registry,
      )

      by_found :
          (o : Option SolverConfig)
          → find_solver name sm.solver_registry ≡ o
          → status_of name (solver_status sm.solver_registry) ≡ enabled_of o
          → EnabledAs b name sm (set_enabled b name sm)
      by_found none e h = inl (h, rw (e, set_enabled) refl)
      by_found (some c) e h = inr (
        record sm {
          solver_registry = set_solver name (record c { enabled = b }) sm.solver_registry;
        },
        rw (e, set_enabled) refl,
        others c,
        refl,
        refl,
        refl,
        refl,
      )
