-- ===== src/SolverManager/Lifecycle.antt =====
-- What the manager runs between the start and the shutdown.
use oif_starknet.Prelude.{◌≡◌, refl, ap, sym, ◌∙◌, List, [], ◌++◌, Option, none, some}
use mathlib.Core.Path.{subst}
use oif_starknet.Prelude.Result.{Result, Error, Panic, ok, err, panic}
use oif_starknet.Prelude.Text.{GoString}
use oif_starknet.EnvUtil.{Env}
use oif_starknet.Types.Address.{Geth}
use oif_starknet.Config.Networks.{Networks}
use oif_starknet.StarknetUtil.{Felts}
use oif_starknet.SolverManager.{
  SolverManager, Dials, Nodes, sources, shutdown, and_then, initialize_enabled, initialize_solvers,
  initialize_evm_clients, initialize_starknet_clients, first_provider, with_starknet_provider,
  after_initialize, start,
}
use oif_starknet.SolverManager.Listeners.{
  known, started_by, AllKnown, Grown, initialize_enabled-Grown,
}

module _ {Client Provider Key Signer Account Felt : Type 0}
    (d : Dials Client Provider Key Signer Account Felt) (g : Geth) (fs : Felts Felt) (getenv : Env)
    (nodes : Nodes) (networks : Networks) where
  -- The clients are set up without a change of the listeners and the registry.
  abbrev Kept :
      SolverManager Client Provider → Result (Unit {0}) × SolverManager Client Provider → Type 0
  Kept sm r =
      (r.1.active_shutdowns ≡ sm.active_shutdowns) × (r.1.solver_registry ≡ sm.solver_registry)

  initialize_evm_clients-Kept :
      (sm : SolverManager Client Provider)
      → Kept sm (initialize_evm_clients d g fs getenv nodes networks sm)
  unfolding initialize_evm_clients
  initialize_evm_clients-Kept sm = (refl, refl)

  initialize_starknet_clients-Kept :
      (sm : SolverManager Client Provider)
      → Kept sm (initialize_starknet_clients d g fs getenv nodes networks sm)
  unfolding initialize_starknet_clients
  initialize_starknet_clients-Kept sm =
      by_provider (first_provider d g fs getenv nodes networks networks)
    where
      by_provider :
          (o : Option (Result Provider))
          → Kept sm (with_starknet_provider d g fs getenv nodes networks o sm)
      by_provider none = unfold with_starknet_provider in (refl, refl)
      by_provider (some (ok p)) = unfold with_starknet_provider in (refl, refl)
      by_provider (some (err e)) = unfold with_starknet_provider in (refl, refl)
      by_provider (some (panic p)) = unfold with_starknet_provider in (refl, refl)

  -- What a whole initialisation does to the manager that it starts from.
  abbrev Whole :
      SolverManager Client Provider → Result (Unit {0}) × SolverManager Client Provider → Type 0
  Whole sm r =
      Grown d g fs getenv nodes networks sm (started_by (known networks sources) sm.solver_registry)
        (AllKnown sm.solver_registry) r

  and_then-Whole :
      (sm : SolverManager Client Provider) (r : Result (Unit {0}) × SolverManager Client Provider)
      (text : _)
      (next : SolverManager Client Provider → Result (Unit {0}) × SolverManager Client Provider)
      → Kept sm r
      → ((sm' : SolverManager Client Provider) → Whole sm' (next sm'))
      → Whole sm (and_then d g fs getenv nodes networks text r next)
  unfolding and_then
  and_then-Whole sm (ok t, sm1) text next (h, k) more = same (next sm1) (more sm1)
    where
      same : (r : Result (Unit {0}) × SolverManager Client Provider) → Whole sm1 r → Whole sm r
      same (ok u, after) (all, h', k') = (
        subst AllKnown k all,
        h'
            ∙ ap (λ l. l ++ started_by (known networks sources) sm1.solver_registry) h
            ∙ ap (λ r. sm.active_shutdowns ++ started_by (known networks sources) r) k,
        k' ∙ k,
      )
      same (err e, after) w = tt
      same (panic p, after) w = tt
  and_then-Whole sm (err e, sm1) text next h more = tt
  and_then-Whole sm (panic p, sm1) text next h more = tt

  initialize_solvers-Whole :
      (sm : SolverManager Client Provider)
      → Whole sm (initialize_solvers d g fs getenv nodes networks sm)
  unfolding initialize_solvers
  initialize_solvers-Whole sm =
      and_then-Whole sm (initialize_evm_clients d g fs getenv nodes networks sm)
        "failed to initialize EVM clients" with_starknet (initialize_evm_clients-Kept sm)
        λ sm1.
          and_then-Whole sm1 (initialize_starknet_clients d g fs getenv nodes networks sm1)
            "failed to initialize Starknet client" enabled (initialize_starknet_clients-Kept sm1)
            λ sm2. initialize_enabled-Grown d g fs getenv nodes networks sm2.solver_registry sm2
    where
      enabled : SolverManager Client Provider → Result (Unit {0}) × SolverManager Client Provider
      enabled sm2 = initialize_enabled d g fs getenv nodes networks sm2.solver_registry sm2

      with_starknet :
          SolverManager Client Provider → Result (Unit {0}) × SolverManager Client Provider
      with_starknet sm1 =
          and_then d g fs getenv nodes networks "failed to initialize Starknet client"
            (initialize_starknet_clients d g fs getenv nodes networks sm1) enabled

  -- If `Start` returns without an error, every enabled solver of the registry is the Hyperlane7683
  -- solver, the listeners that were stopped are those that ran before and, for each enabled
  -- solver, one for each source with a network, in the order of the sources, and none is left
  -- running; the registry is as it was.
  pub start_ok :
      (sm sm' : SolverManager Client Provider) (stopped : List GoString)
      → start d g fs getenv nodes networks sm ≡ (ok tt, stopped, sm')
      → AllKnown sm.solver_registry
        × (stopped ≡ sm.active_shutdowns ++ started_by (known networks sources) sm.solver_registry)
        × (sm'.active_shutdowns ≡ [])
        × (sm'.solver_registry ≡ sm.solver_registry)
  unfolding start
  start_ok sm sm' stopped ended = by_result _ (initialize_solvers-Whole sm) ended
    where
      Outcome : Type 0
      Outcome = Result (Unit {0}) × List GoString × SolverManager Client Provider

      never : {e : Error} → Path (Result (Unit {0})) (err e) (ok tt) → ⊥
      never h = cc

      never' : {p : Panic} → Path (Result (Unit {0})) (panic p) (ok tt) → ⊥
      never' h = cc

      by_result :
          (r : Result (Unit {0}) × SolverManager Client Provider)
          → Whole sm r
          → after_initialize d g fs getenv nodes networks r ≡ (ok tt, stopped, sm')
          → AllKnown sm.solver_registry
            × (stopped
                ≡ sm.active_shutdowns ++ started_by (known networks sources) sm.solver_registry)
            × (sm'.active_shutdowns ≡ [])
            × (sm'.solver_registry ≡ sm.solver_registry)
      by_result (ok t, after) (all, h, k) q =
          unfold after_initialize shutdown in
          (
            all,
            ap (λ (x : Outcome). x.1) (sym q) ∙ h,
            ap (λ (x : Outcome). x.2.active_shutdowns) (sym q),
            ap (λ (x : Outcome). x.2.solver_registry) (sym q) ∙ k,
          )
      by_result (err e, after) w q =
          unfold after_initialize in absurd (never (ap (λ (x : Outcome). x.0) q))
      by_result (panic p, after) w q =
          unfold after_initialize in absurd (never' (ap (λ (x : Outcome). x.0) q))
