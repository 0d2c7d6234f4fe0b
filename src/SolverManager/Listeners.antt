-- ===== src/SolverManager/Listeners.antt =====
-- The listeners that run between the start and the shutdown.
use oif_starknet.Prelude.{
  ◌≡◌, refl, ap, sym, ◌∙◌, Bool, true, false, List, [], ◌∷◌, ◌++◌, Option, none, some,
  if◌then◌else◌, if_cases,
}
use mathlib.Core.List.{append_assoc, append-nil}
use oif_starknet.Prelude.Result.{Result, ok, err, panic}
use oif_starknet.Prelude.Text.{GoString, str_eq, str_eq_iff}
use oif_starknet.EnvUtil.{Env}
use oif_starknet.Types.Address.{Geth}
use oif_starknet.Config.Networks.{NetworkConfig, Networks, lookup_network, validate_network_name}
use oif_starknet.StarknetUtil.{Felts}
use oif_starknet.SolverManager.{
  SolverManager, SolverRegistry, Dials, Nodes, sources, hyperlane7683_name, after_start,
  start_source, start_listener, start_listeners, initialize_hyperlane7683, initialize_solver,
  and_then, initialize_enabled,
}

-- The sources that have a network, in the order of the sources.
unfoldable pub known : Networks → List GoString → List GoString
known networks [] = []
known networks (source ∷ rest) =
    let others = known networks rest in
    if validate_network_name networks source then source ∷ others else others

-- The sources whose listeners the enabled solvers of a registry start, if each starts these.
abbrev pub started_by : List GoString → SolverRegistry → List GoString
started_by each [] = []
started_by each ((name, c) ∷ rest) =
    let others = started_by each rest in if c.enabled then each ++ others else others

-- Every enabled solver is the Hyperlane7683 solver.
abbrev pub AllKnown : SolverRegistry → Type 0
AllKnown [] = Unit
AllKnown ((name, c) ∷ rest) = (c.enabled ≡ true → name ≡ hyperlane7683_name) × AllKnown rest

module _ {Client Provider Key Signer Account Felt : Type 0}
    (d : Dials Client Provider Key Signer Account Felt) (g : Geth) (fs : Felts Felt) (getenv : Env)
    (nodes : Nodes) (networks : Networks) where
  -- Without an error, each known source has got its listener, behind those that ran.
  abbrev pub Started : List GoString → List GoString → Result (Unit {0}) × List GoString → Type 0
  Started active more (ok t, after) = after ≡ active ++ more
  Started active more (err e, after) = Unit
  Started active more (panic p, after) = Unit

  start_listeners-Started :
      (names active : List GoString)
      → Started active
          (known networks names)
          (start_listeners d g fs getenv nodes networks names active)
  unfolding known start_listeners validate_network_name
  start_listeners-Started [] active = sym (append-nil active)
  start_listeners-Started (source ∷ rest) active =
      by_network (lookup_network source networks) λ a. start_listeners-Started rest a
    where
      next : List GoString → Result (Unit {0}) × List GoString
      next = start_listeners d g fs getenv nodes networks rest

      Rest : Type 0
      Rest = (a : List GoString) → Started a (known networks rest) (next a)

      move :
          (r : Result (Unit {0}) × List GoString)
          → Started (active ++ (source ∷ [])) (known networks rest) r
          → Started active (source ∷ known networks rest) r
      move (ok t, after) h = h ∙ append_assoc active (source ∷ []) (known networks rest)
      move (err e, after) h = tt
      move (panic p, after) h = tt

      by_start :
          (r : Result (Unit {0}))
          → Rest
          → Started active
              (source ∷ known networks rest)
              (after_start d g fs getenv nodes networks source r next active)
      by_start (ok t) h =
          unfold after_start in move (next (active ++ (source ∷ []))) (h (active ++ (source ∷ [])))
      by_start (err e) h = unfold after_start in tt
      by_start (panic p) h = unfold after_start in tt

      by_network :
          (o : Option NetworkConfig)
          → Rest
          → Started active
              (if (elim o [ none ↦ false | some n ↦ true ])
                then source ∷ known networks rest
                else known networks rest)
              (start_source d g fs getenv nodes networks source o next active)
      by_network none h = unfold start_source in h active
      by_network (some n) h =
          unfold start_source in by_start (start_listener d g fs getenv nodes networks source n) h

  -- Without an error, these listeners run behind those that ran, and the registry is as it was.
  abbrev pub Grown :
      SolverManager Client Provider
      → List GoString
      → Type 0
      → Result (Unit {0}) × SolverManager Client Provider
      → Type 0
  Grown sm more P (ok t, after) =
      P
      × (after.active_shutdowns ≡ sm.active_shutdowns ++ more)
      × (after.solver_registry ≡ sm.solver_registry)
  Grown sm more P (err e, after) = Unit
  Grown sm more P (panic p, after) = Unit

  initialize_hyperlane7683-Grown :
      (sm : SolverManager Client Provider)
      → Grown sm
          (known networks sources)
          (Unit {0})
          (initialize_hyperlane7683 d g fs getenv nodes networks sm)
  unfolding initialize_hyperlane7683
  initialize_hyperlane7683-Grown sm =
      of_listeners (start_listeners d g fs getenv nodes networks sources sm.active_shutdowns)
        (start_listeners-Started sources sm.active_shutdowns)
    where
      of_listeners :
          (r : Result (Unit {0}) × List GoString)
          → Started sm.active_shutdowns (known networks sources) r
          → Grown sm (known networks sources) (Unit {0}) (r.0, record sm { active_shutdowns = r.1 })
      of_listeners (ok t, after) h = (tt, h, refl)
      of_listeners (err e, after) h = tt
      of_listeners (panic p, after) h = tt

  initialize_solver-Grown :
      (name : GoString) (sm : SolverManager Client Provider)
      → Grown sm
          (known networks sources)
          (name ≡ hyperlane7683_name)
          (initialize_solver d g fs getenv nodes networks name sm)
  unfolding initialize_solver
  initialize_solver-Grown name sm =
      if_cases (Grown sm (known networks sources) (name ≡ hyperlane7683_name))
        (str_eq name hyperlane7683_name) _ _
        (λ q.
          named ((str_eq_iff name hyperlane7683_name).0 q) _ (initialize_hyperlane7683-Grown sm))
        (λ q. tt)
    where
      named :
          name ≡ hyperlane7683_name
          → (r : Result (Unit {0}) × SolverManager Client Provider)
          → Grown sm (known networks sources) (Unit {0}) r
          → Grown sm (known networks sources) (name ≡ hyperlane7683_name) r
      named e (ok t, after) (u, h, k) = (e, h, k)
      named e (err x, after) h = tt
      named e (panic p, after) h = tt

  pub initialize_enabled-Grown :
      (registry : SolverRegistry) (sm : SolverManager Client Provider)
      → Grown sm
          (started_by (known networks sources) registry)
          (AllKnown registry)
          (initialize_enabled d g fs getenv nodes networks registry sm)
  unfolding initialize_enabled
  initialize_enabled-Grown [] sm = (tt, sym (append-nil sm.active_shutdowns), refl)
  initialize_enabled-Grown ((name, c) ∷ rest) sm =
      by_test (known networks sources) c.enabled refl (initialize_enabled-Grown rest)
        (initialize_solver d g fs getenv nodes networks name sm) (initialize_solver-Grown name sm)
    where
      next : SolverManager Client Provider → Result (Unit {0}) × SolverManager Client Provider
      next = initialize_enabled d g fs getenv nodes networks rest

      Rest : List GoString → Type 0
      Rest each =
          (sm' : SolverManager Client Provider)
          → Grown sm' (started_by each rest) (AllKnown rest) (next sm')

      Whole :
          List GoString → List GoString → Result (Unit {0}) × SolverManager Client Provider → Type 0
      Whole more each r =
          Grown sm more ((c.enabled ≡ true → name ≡ hyperlane7683_name) × AllKnown rest) r

      behind :
          (each : List GoString) (e : name ≡ hyperlane7683_name)
          (sm1 : SolverManager Client Provider)
          (r : Result (Unit {0}) × SolverManager Client Provider)
          → sm1.active_shutdowns ≡ sm.active_shutdowns ++ each
          → sm1.solver_registry ≡ sm.solver_registry
          → Grown sm1 (started_by each rest) (AllKnown rest) r
          → Whole (each ++ started_by each rest) each r
      behind each e sm1 (ok t, after) h k (all, h', k') = (
        (λ q. e, all),
        h'
            ∙ ap (λ l. l ++ started_by each rest) h
            ∙ append_assoc sm.active_shutdowns each (started_by each rest),
        k' ∙ k,
      )
      behind each e sm1 (err x, after) h k g' = tt
      behind each e sm1 (panic x, after) h k g' = tt

      by_solver :
          (each : List GoString) (r : Result (Unit {0}) × SolverManager Client Provider)
          → Rest each
          → Grown sm each (name ≡ hyperlane7683_name) r
          → Whole
              (each ++ started_by each rest)
              each
              (and_then d g fs getenv nodes networks "failed to initialize solver" r next)
      by_solver each (ok t, sm1) more (e, h, k) =
          unfold and_then in behind each e sm1 (next sm1) h k (more sm1)
      by_solver each (err x, sm1) more h = unfold and_then in tt
      by_solver each (panic x, sm1) more h = unfold and_then in tt

      skipped :
          (each : List GoString) (r : Result (Unit {0}) × SolverManager Client Provider)
          → c.enabled ≡ false
          → Grown sm (started_by each rest) (AllKnown rest) r
          → Whole (started_by each rest) each r
      skipped each (ok t, after) off (all, h, k) = ((λ on. cc, all), h, k)
      skipped each (err x, after) off h = tt
      skipped each (panic x, after) off h = tt

      by_test :
          (each : List GoString) (b : Bool)
          → c.enabled ≡ b
          → Rest each
          → (r : Result (Unit {0}) × SolverManager Client Provider)
          → Grown sm each (name ≡ hyperlane7683_name) r
          → Whole (if b then each ++ started_by each rest else started_by each rest) each (
              if b
              then and_then d g fs getenv nodes networks "failed to initialize solver" r next
              else next sm)
      by_test each true on more r h = by_solver each r more h
      by_test each false off more r h = skipped each (next sm) off (more sm)
