-- ===== src/Solver/Outcome.antt =====
-- What a result of the solver says about the steps that led to it.
use Prim.Native.String.{String}
use oif_starknet.Prelude.{
  ◌≡◌, ◌≢◌, refl, ap, ◌∙◌, ◌⊎◌, inl, inr, Bool, true, false, not, List, [], ◌∷◌, if◌then◌else◌,
  arith,
}
use oif_starknet.Prelude.Result.{Result, ok, err, panic}
use oif_starknet.Types.{ParsedArgs, FillInstruction, AllowBlockLists}
use oif_starknet.Types.AllowBlock.{is_allowed_intent}
use oif_starknet.Types.Address.{Geth}
use oif_starknet.EnvUtil.{Env}
use oif_starknet.Config.Networks.{Networks}
use oif_starknet.StarknetUtil.{Felts}
use oif_starknet.Chain.{ask, pause, lift}
use oif_starknet.Handler.{OrderAction, settle, complete, error}
use oif_starknet.Rules.Clients.{BalanceClients, Uint256}
use oif_starknet.Rules.Balance.{RuleResult}
use oif_starknet.Rules.Engine.{new_rules_engine, evaluate_all}
use oif_starknet.Solver.Monad.{
  Both, S, return, refuse, run, wrap_result, wrapped, go_on, ◌>>=◌, ◌>>◌,
}
use oif_starknet.Solver.Process.{
  Connections, after_fill, fill_loop, fill_from, fill, settle_order, after_action, process_intent,
}

module _ {Felt : Type 0} where
  bind_ok :
      {A B : Type 0} (m : S Felt A) (f : A → S Felt B) (s t : Both Felt) (b : B)
      → (m >>= f) s ≡ (ok b, t)
      → (a : A) × (s' : Both Felt) × (m s ≡ (ok a, s')) × (f a s' ≡ (ok b, t))
  unfolding ◌>>=◌ go_on
  bind_ok {A} {B} m f s t b h = by_answer (m s) refl h
    where
      by_answer :
          (r : Result A × Both Felt)
          → m s ≡ r
          → go_on r.0 f r.1 ≡ (ok b, t)
          → (a : A) × (s' : Both Felt) × (m s ≡ (ok a, s')) × (f a s' ≡ (ok b, t))
      by_answer (ok a, s') e h = (a, s', e, h)
      by_answer (err x, s') e h = cc
      by_answer (panic x, s') e h = cc

  wrapped_ok :
      {A : Type 0} (text : String) (m : S Felt A) (s t : Both Felt) (a : A)
      → wrapped text m s ≡ (ok a, t)
      → m s ≡ (ok a, t)
  unfolding wrapped
  wrapped_ok {A} text m s t a h = by_answer (m s) h
    where
      by_answer : (r : Result A × Both Felt) → wrap_result text r ≡ (ok a, t) → r ≡ (ok a, t)
      by_answer (ok b, s') h = h
      by_answer (err x, s') h = cc
      by_answer (panic x, s') h = cc

  -- A test that leads to an error was false.
  unless_ok :
      {A : Type 0} (b : Bool) (text : String) (m : S Felt A) (s t : Both Felt) (a : A)
      → (if b then refuse text else m) s ≡ (ok a, t)
      → (b ≡ false) × (m s ≡ (ok a, t))
  unfolding refuse
  unless_ok true text m s t a h = cc
  unless_ok false text m s t a h = (refl, h)

  then_ok :
      {A B : Type 0} (m : S Felt A) (k : S Felt B) (s t : Both Felt) (b : B)
      → (m >> k) s ≡ (ok b, t)
      → (a : A) × (s' : Both Felt) × (m s ≡ (ok a, s')) × (k s' ≡ (ok b, t))
  unfolding ◌>>◌
  then_ok m k s t b h = bind_ok m (λ _. k) s t b h

  -- A log that does not panic leaves the state as it is.
  logged_ok :
      {A : Type 0} (r : Result (Unit {0})) (m : S Felt A) (s t : Both Felt) (a : A)
      → (run (lift r) >> m) s ≡ (ok a, t)
      → (r ≡ ok tt) × (m s ≡ (ok a, t))
  unfolding run lift ◌>>◌ ◌>>=◌ go_on
  logged_ok (ok x) m s t a h = (refl, h)
  logged_ok (err x) m s t a h = cc
  logged_ok (panic x) m s t a h = cc

  return_ok : {A : Type 0} (a b : A) (s t : Both Felt) → return a s ≡ (ok b, t) → (b ≡ a) × (s ≡ t)
  unfolding return
  return_ok a b s t h = (cc, cc)

not_eq_false : (b : Bool) → not b ≡ false → b ≡ true
not_eq_false b h = ground arith

module _ {Felt U : Type 0} (g : Geth) (fs : Felts Felt) (bc : BalanceClients Felt) (u : Uint256 U)
    (networks : Networks) (getenv : Env) (conn : Connections Felt) (lists : AllowBlockLists)
    (args : ParsedArgs) where
  -- How the order ended: the fill found it complete, or asked for a settlement that succeeded.
  abbrev pub Ended : Both Felt → Both Felt → OrderAction → Type 0
  Ended before after action =
      ((action ≡ complete) × (before ≡ after))
      ⊎ ((action ≡ settle)
          × (paused : Both Felt) × (settle_order g fs bc u networks getenv conn lists args paused
              ≡ (ok tt, after)))

  -- The steps of an order that was taken to its end.
  abbrev pub Processed : Both Felt → Both Felt → Type 0
  Processed s t =
      (is_allowed_intent lists args ≡ true)
      × (r : RuleResult) × (checked : Both Felt) × (run
            (evaluate_all g fs bc u networks getenv new_rules_engine args) s
          ≡ (ok r, checked))
      × (r.passed ≡ true)
      × (action : OrderAction) × (filled : Both Felt) × (fill g fs bc u networks getenv conn lists
            args checked
          ≡ (ok action, filled))
      × Ended filled t action

  fill_loop-no_error :
      (is : List FillInstruction) (s t : Both Felt)
      → fill_loop g fs bc u networks getenv conn lists args is s ≢ (ok error, t)
  unfolding fill_loop after_fill return refuse
  fill_loop-no_error [] s t h = cc
  fill_loop-no_error (i ∷ is) s t h =
      let (a, s', e, k) = bind_ok _ _ s t error h in by_action a s' (fill_loop-no_error is) k
    where
      by_action :
          (a : OrderAction) (s' : Both Felt)
          → ((s t : Both Felt)
              → fill_loop g fs bc u networks getenv conn lists args is s ≢ (ok error, t))
          → after_fill g fs bc u networks getenv conn lists a
              (fill_loop g fs bc u networks getenv conn lists args is)
              s'
            ≢ (ok error, t)
      by_action settle s' next k = cc
      by_action complete s' next k = next s' t k
      by_action error s' next k = cc

  fill-no_error :
      (s t : Both Felt) → fill g fs bc u networks getenv conn lists args s ≢ (ok error, t)
  unfolding fill fill_from refuse
  fill-no_error s t h =
      by_instructions args.resolved_order.fill_instructions (logged_ok _ _ s t error h).1
    where
      by_instructions :
          (is : List FillInstruction)
          → fill_from g fs bc u networks getenv conn lists args is s ≢ (ok error, t)
      by_instructions [] h = cc
      by_instructions (i ∷ is) h = fill_loop-no_error (i ∷ is) s t h

  after_action_ok :
      (a : OrderAction) (s t : Both Felt) (b : Bool)
      → a ≢ error
      → after_action g fs bc u networks getenv conn lists args a s ≡ (ok b, t)
      → (b ≡ true) × Ended s t a
  unfolding after_action
  after_action_ok complete s t b n h =
      let (is_true, same) = return_ok true b s t h in (is_true, inl (refl, same))
  after_action_ok settle s t b n h =
      let (x, paused, e, k) = then_ok (run (ask (pause 2000) (λ _. ok tt))) _ s t b h in
      let (y, after, e', k') = then_ok _ (return true) paused t b k in
      let (is_true, same) = return_ok true b after t k' in
      (is_true, inr (refl, paused, wrapped_ok _ _ paused after y e' ∙ ap (λ x. (ok tt, x)) same))
  after_action_ok error s t b n h = absurd (n refl)

  -- If processing an order returns without an error, it returns true, and every step was taken:
  -- the lists let the order through, the rules passed, the fill returned no error, and it either
  -- found the order complete or asked for a settlement, which then succeeded.
  pub process_intent_ok :
      (s t : Both Felt) (b : Bool)
      → process_intent g fs bc u networks getenv conn lists args s ≡ (ok b, t)
      → (b ≡ true) × Processed s t
  unfolding process_intent
  process_intent_ok s t b h =
      let (long, h0) = logged_ok _ _ s t b h in
      let (allowed, h1) = unless_ok _ _ _ s t b h0 in
      let (r, checked, rules, h2) = bind_ok _ _ s t b h1 in
      let (passed, h3) = unless_ok _ _ _ checked t b h2 in
      let (action, filled, fills, h4) = bind_ok _ _ checked t b h3 in
      let fills' = wrapped_ok _ _ checked filled action fills in
      let (is_true, ended) =
        after_action_ok action filled t b
          (λ e. fill-no_error checked filled (fills' ∙ ap (λ a. (ok a, filled)) e)) h4 in
      (
        is_true,
        (
          not_eq_false _ allowed,
          r,
          checked,
          rules,
          not_eq_false _ passed,
          action,
          filled,
          fills',
          ended,
        ),
      )
