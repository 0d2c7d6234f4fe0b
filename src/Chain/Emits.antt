-- ===== src/Chain/Emits.antt =====
-- The requests that an action makes, one rule for each way to build an action; and actions that
-- leave the signer's value as they found it.
use Prim.Native.String.{String}
use mathlib.Core.List.{append_assoc}
use oif_starknet.Prelude.{
  ℕ, ◌≡◌, refl, sym, ap, ◌∙◌, Bool, true, false, [], ◌∷◌, ◌++◌, Option, none, some, All, All-append,
  if◌then◌else◌,
}
use oif_starknet.Prelude.Result.{Result, ok, err, panic}
use oif_starknet.Chain.{
  Request, History, State, M, pure, fail, lift, ask, wrapping, wrap_answer, attempt, catch_answer,
  with_signer_value, continue, ◌>>=◌, ◌>>◌, uint64_of, signer_value,
}

-- From one state to another the history grows by requests of a kind, and the signer's value is
-- the same.
pub record Grows {Felt : Type 0} (P : Request Felt → Type 0) (s t : State Felt) : Type 0 where
  pub made : History Felt
  pub history_lem : t.history ≡ made ++ s.history
  pub allowed : All P made
  pub value_kept : t.signer_value ≡ s.signer_value

-- Whatever an action returns, an error and a panic included, it makes requests of a kind only,
-- and leaves the signer's value as it was.
pub record Emits {Felt A : Type 0} (P : Request Felt → Type 0) (m : M Felt A) : Type 0 where
  pub at : (s : State Felt) → Grows P s (m s).1

module _ {Felt : Type 0} (P : Request Felt → Type 0) where
  pub Grows-none : (s : State Felt) → Grows P s s
  Grows-none s = record { made = []; history_lem = refl; allowed = tt; value_kept = refl }

  pub Grows-trans : (s t u : State Felt) → Grows P s t → Grows P t u → Grows P s u
  Grows-trans s t u g h = record {
    made = h.made ++ g.made;
    history_lem =
        h.history_lem
        ∙ ap (λ x. h.made ++ x) g.history_lem
        ∙ sym (append_assoc h.made g.made s.history);
    allowed = All-append P h.made g.made h.allowed g.allowed;
    value_kept = h.value_kept ∙ g.value_kept;
  }

module _ {Felt A : Type 0} {P : Request Felt → Type 0} where
  pub Emits-pure : (a : A) → Emits P (pure a)
  unfolding pure
  Emits-pure a = record { at = Grows-none P }

  pub Emits-fail : (text : String) → Emits P (fail {A = A} text)
  unfolding fail
  Emits-fail text = record { at = Grows-none P }

  pub Emits-lift : (r : Result A) → Emits P (lift r)
  unfolding lift
  Emits-lift r = record { at = Grows-none P }

  pub Emits-ask : (q : Request Felt) (f : History Felt → Result A) → P q → Emits P (ask q f)
  unfolding ask
  Emits-ask q f p = record {
    at = λ s. record { made = q ∷ []; history_lem = refl; allowed = (p, tt); value_kept = refl };
  }

  pub Emits-wrapping : (text : String) (m : M Felt A) → Emits P m → Emits P (wrapping text m)
  unfolding wrapping
  Emits-wrapping text m e = record { at = λ s. keep s (m s) (e.at s) }
    where
      keep :
          (s : State Felt) (r : Result A × State Felt)
          → Grows P s r.1
          → Grows P s (wrap_answer text r).1
      keep s (ok a, t) g = g
      keep s (err x, t) g = g
      keep s (panic p, t) g = g

  pub Emits-attempt : (m : M Felt A) → Emits P m → Emits P (attempt m)
  unfolding attempt
  Emits-attempt m e = record { at = λ s. keep s (m s) (e.at s) }
    where
      keep :
          (s : State Felt) (r : Result A × State Felt)
          → Grows P s r.1
          → Grows P s (catch_answer r).1
      keep s (ok a, t) g = g
      keep s (err x, t) g = g
      keep s (panic p, t) g = g

  pub Emits-with_signer_value :
      (value : Option ℕ) (m : M Felt A) → Emits P m → Emits P (with_signer_value value m)
  unfolding with_signer_value
  Emits-with_signer_value value m e = record {
    at = λ s.
        let g = e.at (record s { signer_value = value }) in
        record {
          made = g.made;
          history_lem = g.history_lem;
          allowed = g.allowed;
          value_kept = refl;
        };
  }

  pub Emits-if :
      (b : Bool) (m n : M Felt A)
      → (b ≡ true → Emits P m)
      → (b ≡ false → Emits P n)
      → Emits P (if b then m else n)
  Emits-if true m n em en = em refl
  Emits-if false m n em en = en refl

module _ {Felt A B : Type 0} {P : Request Felt → Type 0} where
  Emits-continue :
      (r : Result A) (f : A → M Felt B)
      → ((a : A) → r ≡ ok a → Emits P (f a))
      → Emits P (continue r f)
  unfolding continue
  Emits-continue (ok a) f ef = record { at = (ef a refl).at }
  Emits-continue (err e) f ef = record { at = Grows-none P }
  Emits-continue (panic p) f ef = record { at = Grows-none P }

  pub Emits-bind :
      (m : M Felt A) (f : A → M Felt B) → Emits P m → ((a : A) → Emits P (f a)) → Emits P (m >>= f)
  unfolding ◌>>=◌
  Emits-bind m f em ef = record {
    at = λ s.
        let (r, t) = m s in
        Grows-trans P s t (continue r f t).1 (em.at s) ((Emits-continue r f (λ a _. ef a)).at t);
  }

  -- What follows an action may use that the action gave the value.
  pub Emits-bind-gave :
      (m : M Felt A) (f : A → M Felt B)
      → Emits P m
      → ((a : A) (s : State Felt) → (m s).0 ≡ ok a → Emits P (f a))
      → Emits P (m >>= f)
  unfolding ◌>>=◌
  Emits-bind-gave m f em ef = record {
    at = λ s.
        let (r, t) = m s in
        Grows-trans P s t (continue r f t).1 (em.at s)
          ((Emits-continue r f (λ a e. ef a s e)).at t);
  }

  -- What follows a value that is at hand may use that it is that value.
  pub Emits-bind-lift :
      (r : Result A) (f : A → M Felt B)
      → ((a : A) → r ≡ ok a → Emits P (f a))
      → Emits P (lift r >>= f)
  unfolding ◌>>=◌ lift
  Emits-bind-lift r f ef = record { at = (Emits-continue r f ef).at }

  pub Emits-bind-wrapping-lift :
      (text : String) (r : Result A) (f : A → M Felt B)
      → ((a : A) → r ≡ ok a → Emits P (f a))
      → Emits P (wrapping text (lift r) >>= f)
  unfolding ◌>>=◌ wrapping lift
  Emits-bind-wrapping-lift text (ok a) f ef = record { at = (ef a refl).at }
  Emits-bind-wrapping-lift text (err e) f ef = record { at = Grows-none P }
  Emits-bind-wrapping-lift text (panic p) f ef = record { at = Grows-none P }

  pub Emits-then : (m : M Felt A) (k : M Felt B) → Emits P m → Emits P k → Emits P (m >> k)
  unfolding ◌>>◌
  Emits-then m k em ek = Emits-bind m (λ _. k) em (λ _. ek)

-- Wrapping the error of an action keeps the value that it gives.
pub wrapping-gave :
    {Felt A : Type 0} (text : String) (m : M Felt A) (s : State Felt) (a : A)
    → (wrapping text m s).0 ≡ ok a
    → (m s).0 ≡ ok a
unfolding wrapping
wrapping-gave {Felt} {A} text m s a h = by_answer (m s) h
  where
    by_answer : (r : Result A × State Felt) → (wrap_answer text r).0 ≡ ok a → r.0 ≡ ok a
    by_answer (ok b, t) h = h
    by_answer (err x, t) h = cc
    by_answer (panic p, t) h = cc

module _ {Felt : Type 0} {P : Request Felt → Type 0} where
  pub Emits-uint64_of : (x : Option ℕ) → Emits P (uint64_of {Felt = Felt} x)
  unfolding uint64_of
  Emits-uint64_of none = Emits-lift _
  Emits-uint64_of (some x) = Emits-lift _

  pub Emits-signer_value : Emits P (signer_value {Felt = Felt})
  unfolding signer_value
  Emits-signer_value = record { at = Grows-none P }

-- An action that makes requests of one kind makes requests of a wider kind.
pub Emits-mono :
    {Felt A : Type 0} (P Q : Request Felt → Type 0) (m : M Felt A)
    → ((q : Request Felt) → P q → Q q)
    → Emits P m
    → Emits Q m
Emits-mono {Felt} P Q m f e = record {
  at = λ s.
      let g = e.at s in
      record {
        made = g.made;
        history_lem = g.history_lem;
        allowed = wider g.made g.allowed;
        value_kept = g.value_kept;
      };
}
  where
    wider : (l : History Felt) → All P l → All Q l
    wider [] h = tt
    wider (q ∷ l) h = (f q h.0, wider l h.1)

pub ruleset emits_rules = (
  Emits-pure, Emits-fail, Emits-lift, Emits-ask, Emits-wrapping, Emits-attempt,
  Emits-with_signer_value, Emits-if, Emits-bind, Emits-then, Emits-uint64_of, Emits-signer_value,
)
