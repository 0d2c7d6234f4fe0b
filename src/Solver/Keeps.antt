-- ===== src/Solver/Keeps.antt =====
-- Actions of the solver that make requests of one kind, and keep only handlers that do so too.
use Prim.Native.String.{String}
use oif_starknet.Prelude.{ℕ, Bool, true, false, List, [], ◌∷◌, Option, none, some, if◌then◌else◌}
use oif_starknet.Prelude.Result.{Result, ok, err, panic, Ensures}
use oif_starknet.Types.{ParsedArgs}
use oif_starknet.Chain.{Request, M, State}
use oif_starknet.Chain.Emits.{Grows, Emits, Grows-none, Grows-trans}
use oif_starknet.Handler.{ChainHandler}
use oif_starknet.Solver.Monad.{
  Solver, Both, S, return, refuse, run, wrap_result, wrapped, go_on, ◌>>=◌, ◌>>◌,
}

module _ {Felt : Type 0} (P : ParsedArgs → Request Felt → Type 0) where
  -- For every order, the handler makes only requests that belong to the order.
  pub record IsSafe (h : ChainHandler Felt) : Type 0 where
    pub fills : (args : ParsedArgs) → Emits (P args) (h.fill_order args)
    pub settles : (args : ParsedArgs) → Emits (P args) (h.settle_order args)

  abbrev pub AllSafe : List (ℕ × ChainHandler Felt) → Type 0
  AllSafe [] = Unit
  AllSafe ((k, h) ∷ rest) = IsSafe h × AllSafe rest

  abbrev pub NoneOrSafe : Option (ChainHandler Felt) → Type 0
  NoneOrSafe none = Unit
  NoneOrSafe (some h) = IsSafe h

  -- The handlers that the solver keeps.
  abbrev pub HasSafe : Solver Felt → Type 0
  HasSafe f = AllSafe f.evm_handlers × NoneOrSafe f.hyperlane_starknet

-- No property.
abbrev pub Any : {A : Type 0} → A → Type 0
Any a = Unit

module _ {Felt : Type 0} (P : ParsedArgs → Request Felt → Type 0) (args : ParsedArgs) where
  -- Whatever an action returns, it makes only requests that belong to the order and keeps only safe
  -- handlers; a value that it returns has a property.
  pub record Keeps {A : Type 0} (Q : A → Type 0) (m : S Felt A) : Type 0 where
    pub at :
        (f : Solver Felt) (s : State Felt)
        → HasSafe P f
        → Grows (P args) s (m (f, s)).1.1 × HasSafe P (m (f, s)).1.0 × Ensures Q (m (f, s)).0

  pub Keeps-return : {A : Type 0} (Q : A → Type 0) (a : A) → Q a → Keeps Q (return a)
  unfolding return
  Keeps-return Q a q = record { at = λ f s h. (Grows-none (P args) s, h, q) }

  pub Keeps-refuse : {A : Type 0} (Q : A → Type 0) (text : String) → Keeps Q (refuse text)
  unfolding refuse
  Keeps-refuse Q text = record { at = λ f s h. (Grows-none (P args) s, h, tt) }

  pub Keeps-run : {A : Type 0} (m : M Felt A) → Emits (P args) m → Keeps Any (run m)
  unfolding run
  Keeps-run m e = record { at = λ f s h. (e.at s, h, any (m s).0) }
    where
      any : {A : Type 0} (r : Result A) → Ensures Any r
      any (ok a) = tt
      any (err e) = tt
      any (panic p) = tt

  pub Keeps-wrapped :
      {A : Type 0} (Q : A → Type 0) (text : String) (m : S Felt A)
      → Keeps Q m
      → Keeps Q (wrapped text m)
  unfolding wrapped
  Keeps-wrapped {A} Q text m e = record { at = λ f s h. keep s (m (f, s)) (e.at f s h) }
    where
      keep :
          (s : State Felt) (r : Result A × Both Felt)
          → Grows (P args) s r.1.1 × HasSafe P r.1.0 × Ensures Q r.0
          → Grows (P args) s (wrap_result text r).1.1
            × HasSafe P (wrap_result text r).1.0
            × Ensures Q (wrap_result text r).0
      keep s (ok a, t) g = g
      keep s (err x, t) g = g
      keep s (panic p, t) g = g

  pub Keeps-if :
      {A : Type 0} (Q : A → Type 0) (b : Bool) (m n : S Felt A)
      → Keeps Q m
      → Keeps Q n
      → Keeps Q (if b then m else n)
  Keeps-if Q true m n em en = em
  Keeps-if Q false m n em en = en

  pub Keeps-bind :
      {A B : Type 0} (Q : A → Type 0) (R : B → Type 0) (m : S Felt A) (f : A → S Felt B)
      → Keeps Q m
      → ((a : A) → Q a → Keeps R (f a))
      → Keeps R (m >>= f)
  unfolding ◌>>=◌ go_on
  Keeps-bind {A} {B} Q R m k em ek = record { at = λ f s h. next s (m (f, s)) (em.at f s h) }
    where
      next :
          (s : State Felt) (r : Result A × Both Felt)
          → Grows (P args) s r.1.1 × HasSafe P r.1.0 × Ensures Q r.0
          → Grows (P args) s (go_on r.0 k r.1).1.1
            × HasSafe P (go_on r.0 k r.1).1.0
            × Ensures R (go_on r.0 k r.1).0
      next s (ok a, (f, t)) (g, h, q) =
          let (g', h', q') = (ek a q).at f t h in
          (Grows-trans (P args) s t (k a (f, t)).1.1 g g', h', q')
      next s (err e, (f, t)) (g, h, q) = (g, h, tt)
      next s (panic p, (f, t)) (g, h, q) = (g, h, tt)

  pub Keeps-then :
      {A B : Type 0} (Q : A → Type 0) (R : B → Type 0) (m : S Felt A) (k : S Felt B)
      → Keeps Q m
      → Keeps R k
      → Keeps R (m >> k)
  unfolding ◌>>◌
  Keeps-then Q R m k em ek = Keeps-bind Q R m (λ _. k) em (λ a q. ek)
