-- ===== src/BaseSolver/Rulings.antt =====
-- Which intents the base solver processes.

use oif_starknet.Prelude.{
  List, [], ◌∷◌, Bool, true, false, ◌≡◌, refl, sym, ◌∙◌, All, Bool-cases, inl, inr, ◌↔◌, ◌⊎◌,
}
use oif_starknet.Prelude.Result.{Result, ok, err, panic, Error, Panic, ◌>>=◌}
use oif_starknet.Types.{Recipient, ParsedArgs, AllowBlockListItem}
use oif_starknet.Types.AllowBlock
use oif_starknet.BaseSolver.{
  Rule, SolverImpl, Intent, recipients_match, matches_allow_block_item, item_matches,
  allowed_by_list, is_allowed_intent, evaluate_rules, prepare_intent, after_prepare, process_intent,
  fill, settle_order,
}

recipients_match-eq :
    (item : AllowBlockListItem) (rs : List Recipient)
    → recipients_match item rs ≡ AllowBlock.matches_recipients item rs
unfolding recipients_match AllowBlock.matches_recipients
recipients_match-eq item [] = refl
recipients_match-eq item (r ∷ rest) = rw (recipients_match-eq item rest) refl

item_matches-eq :
    (items : List AllowBlockListItem) (args : ParsedArgs)
    → item_matches items args ≡ AllowBlock.any_item_matches items args
unfolding item_matches AllowBlock.any_item_matches matches_allow_block_item
    AllowBlock.matches_allow_block_item
item_matches-eq [] args = refl
item_matches-eq (item ∷ rest) args =
    rw (recipients_match-eq item args.recipients, item_matches-eq rest args) refl

allowed_by_list-eq :
    (items : List AllowBlockListItem) (args : ParsedArgs)
    → allowed_by_list items args ≡ AllowBlock.allowed_by items args
unfolding allowed_by_list AllowBlock.allowed_by
allowed_by_list-eq [] args = refl
allowed_by_list-eq (item ∷ rest) args = item_matches-eq (item ∷ rest) args

Result-cases :
    (r : Result (Unit {0}))
    → (r ≡ ok tt) ⊎ (((x : Error) × (r ≡ err x)) ⊎ ((p : Panic) × (r ≡ panic p)))
Result-cases (ok tt) = inl refl
Result-cases (err x) = inr (inl (x, refl))
Result-cases (panic p) = inr (inr (p, refl))

module _ {Metadata : Type 0} where
  is_allowed_intent-eq :
      (f : SolverImpl Metadata) (args : ParsedArgs)
      → is_allowed_intent f args ≡ AllowBlock.is_allowed_intent f.allow_block_lists args
  unfolding is_allowed_intent AllowBlock.is_allowed_intent
  is_allowed_intent-eq f args =
      rw
        (
          item_matches-eq f.allow_block_lists.block_list args,
          allowed_by_list-eq f.allow_block_lists.allow_list args,
        )
        refl

  abbrev pub Accepts : ParsedArgs → Metadata → Rule Metadata → Type 0
  Accepts args metadata rule = rule args metadata ≡ ok tt

  -- A rule rejects the order, and every rule before it accepts it.
  abbrev pub Rejected : ParsedArgs → Metadata → List (Rule Metadata) → Type 0
  Rejected args metadata [] = ⊥
  Rejected args metadata (rule ∷ rest) =
      ((x : Error) × (rule args metadata ≡ err x))
      ⊎ (Accepts args metadata rule × Rejected args metadata rest)

  rules_pass :
      (f : SolverImpl Metadata) (args : ParsedArgs) (rules : List (Rule Metadata))
      → All (Accepts args f.metadata) rules
      → (intent : Intent) × (evaluate_rules rules args f.metadata ≡ ok intent)
        × (after_prepare f args intent ≡ ok true)
  unfolding evaluate_rules after_prepare fill settle_order
  rules_pass f args [] h = (_, refl, refl)
  rules_pass f args (rule ∷ rest) h = rw h.0 (rules_pass f args rest h.1)

  run_rules : SolverImpl Metadata → ParsedArgs → List (Rule Metadata) → Result Bool
  run_rules f args rules =
      evaluate_rules rules args f.metadata >>= (λ intent. after_prepare f args intent)

  rules_passed :
      (f : SolverImpl Metadata) (args : ParsedArgs) (rules : List (Rule Metadata))
      → run_rules f args rules ≡ ok true
      → All (Accepts args f.metadata) rules
  unfolding run_rules evaluate_rules after_prepare
  rules_passed f args [] h = tt
  rules_passed f args (rule ∷ rest) h = elim (Result-cases (rule args f.metadata)) [
    | inl e ↦ (e, rules_passed f args rest (rw e at h))
    | inr (inl (x, e)) ↦ let k = rw e at h in cc
    | inr (inr (p, e)) ↦ let k = rw e at h in cc
  ]

  rules-Rejected :
      (f : SolverImpl Metadata) (args : ParsedArgs) (rules : List (Rule Metadata))
      → run_rules f args rules ≡ ok false
      → Rejected args f.metadata rules
  unfolding run_rules evaluate_rules after_prepare fill settle_order
  rules-Rejected f args [] h = cc
  rules-Rejected f args (rule ∷ rest) h = elim (Result-cases (rule args f.metadata)) [
    | inl e ↦ inr (e, rules-Rejected f args rest (rw e at h))
    | inr (inl (x, e)) ↦ inl (x, e)
    | inr (inr (p, e)) ↦ let k = rw e at h in cc
  ]

  Rejected-rules :
      (f : SolverImpl Metadata) (args : ParsedArgs) (rules : List (Rule Metadata))
      → Rejected args f.metadata rules
      → run_rules f args rules ≡ ok false
  unfolding run_rules evaluate_rules after_prepare
  Rejected-rules f args [] r = absurd r
  Rejected-rules f args (rule ∷ rest) (inl (x, e)) = rw e refl
  Rejected-rules f args (rule ∷ rest) (inr (e, r)) = rw e (Rejected-rules f args rest r)

  no_error :
      (f : SolverImpl Metadata) (args : ParsedArgs) (rules : List (Rule Metadata)) (x : Error)
      → ¬ (run_rules f args rules ≡ err x)
  unfolding run_rules evaluate_rules after_prepare fill settle_order
  no_error f args [] x h = cc
  no_error f args (rule ∷ rest) x h = elim (Result-cases (rule args f.metadata)) [
    | inl e ↦ no_error f args rest x (rw e at h)
    | inr (inl (y, e)) ↦ let k = rw e at h in cc
    | inr (inr (p, e)) ↦ let k = rw e at h in cc
  ]

  allowed_process :
      (f : SolverImpl Metadata) (args : ParsedArgs)
      → is_allowed_intent f args ≡ true
      → process_intent f args ≡ run_rules f args f.rules
  unfolding process_intent prepare_intent run_rules
  allowed_process f args e = rw e refl

  refused_process :
      (f : SolverImpl Metadata) (args : ParsedArgs)
      → is_allowed_intent f args ≡ false
      → process_intent f args ≡ ok false
  unfolding process_intent prepare_intent after_prepare
  refused_process f args e = rw e refl

  accepted :
      (f : SolverImpl Metadata) (args : ParsedArgs) (rules : List (Rule Metadata)) (intent : Intent)
      → evaluate_rules rules args f.metadata ≡ ok intent
      → run_rules f args rules ≡ after_prepare f args intent
  unfolding run_rules
  accepted f args rules intent e = rw e refl

  -- An intent is processed by the base solver exactly if the check of the allow and block lists
  -- that the Hyperlane7683 solver makes lets it pass and every rule accepts it. The answer is false
  -- exactly if this check stops it, or lets it pass and a rule rejects it that only accepting rules
  -- precede. An error is never reported.
  pub process_intent_iff :
      (f : SolverImpl Metadata) (args : ParsedArgs)
      → ((process_intent f args ≡ ok true) ↔ (
          (AllowBlock.is_allowed_intent f.allow_block_lists args ≡ true)
          × All (Accepts args f.metadata) f.rules))
        × ((process_intent f args ≡ ok false) ↔ (
            (AllowBlock.is_allowed_intent f.allow_block_lists args ≡ false)
            ⊎ ((AllowBlock.is_allowed_intent f.allow_block_lists args ≡ true)
                × Rejected args f.metadata f.rules)))
        × ((x : Error) → ¬ (process_intent f args ≡ err x))
  process_intent_iff f args =
      let same = is_allowed_intent-eq f args in
      elim (Bool-cases (is_allowed_intent f args)) [
        | inl e ↦
            let runs = allowed_process f args e in
            let passes = sym same ∙ e in
            (
              (
                (λ h. (passes, rules_passed f args f.rules (sym runs ∙ h))),
                (λ h.
                    let (intent, evaluated, processed) = rules_pass f args f.rules h.1 in
                    runs ∙ accepted f args f.rules intent evaluated ∙ processed),
              ),
              (
                (λ h. inr (passes, rules-Rejected f args f.rules (sym runs ∙ h))),
                λ h. elim h [
                  | inl stopped ↦ cc
                  | inr (_, r) ↦ runs ∙ Rejected-rules f args f.rules r
                ],
              ),
              λ x h. no_error f args f.rules x (sym runs ∙ h),
            )
        | inr e ↦
            let stops = refused_process f args e in
            ((λ h. cc, λ h. cc), (λ h. inl (sym same ∙ e), λ h. stops), λ x h. cc)
      ]
