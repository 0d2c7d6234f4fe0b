-- ===== src/Config/SolverState/Saving.antt =====
-- Saving the state replaces the file, or leaves it as it was.
use oif_starknet.Prelude.{ℕ, suc, ◌≡◌, refl, Option, some}
use oif_starknet.Prelude.Result.{Result, ok, err, panic}
use oif_starknet.Prelude.Text.{Bytes}
use oif_starknet.Config.Networks.{Networks}
use oif_starknet.Config.SolverState.{
  SolverState, Os, Store, F, call, after_call, after_ok, replace_content, ◌>>=◌, ◌>>◌,
  save_solver_state,
}

-- An outcome that either succeeded, and put these bytes in the file, or failed, and left it.
abbrev pub Atomic : (Bytes → Type 0) → Option Bytes → Result (Unit {0}) × Store → Type 0
Atomic P before (ok a, t) = (d : Bytes) × P d × (t.content ≡ some d)
Atomic P before (err e, t) = t.content ≡ before
Atomic P before (panic p, t) = t.content ≡ before

module _ (P : Bytes → Type 0) where
  -- A call before the file is replaced leaves it.
  Atomic-call :
      {A : Type 0} (text : _) (f : ℕ → Result A) (k : A → F (Unit {0})) (s : Store)
      (before : Option Bytes)
      → s.content ≡ before
      → ((a : A) (t : Store) → f s.clock ≡ ok a → t.content ≡ before → Atomic P before (k a t))
      → Atomic P before ((call text f >>= k) s)
  unfolding call after_call after_ok ◌>>=◌
  Atomic-call text f k s before same h =
      by_answer (f s.clock) λ a. h a (record s { clock = suc s.clock })
    where
      by_answer :
          (r : Result _)
          → ((a : _)
              → r ≡ ok a
              → s.content ≡ before
              → Atomic P before (k a (record s { clock = suc s.clock })))
          → Atomic P before (
              let (r', t) = after_call text r (record s { clock = suc s.clock }) in after_ok r' t k)
      by_answer (ok a) g = g a refl same
      by_answer (err e) g = same
      by_answer (panic x) g = same

  Atomic-then :
      {A : Type 0} (text : _) (f : ℕ → Result A) (k : F (Unit {0})) (s : Store)
      (before : Option Bytes)
      → s.content ≡ before
      → ((t : Store) → t.content ≡ before → Atomic P before (k t))
      → Atomic P before ((call text f >> k) s)
  unfolding ◌>>◌
  Atomic-then text f k s before same h = Atomic-call text f (λ a. k) s before same λ a t e. h t

  Atomic-replace :
      (d : Bytes) (s : Store) (before : Option Bytes) → P d → Atomic P before (replace_content d s)
  unfolding replace_content
  Atomic-replace d s before h = (d, h, refl)

module _ (os : Os) (networks : Networks) where
  -- Whichever call fails, the file holds the bytes of the new state if saving succeeded, and what
  -- it held before if it did not.
  pub save_solver_state-Atomic :
      (state : SolverState) (s : Store)
      → Atomic (λ d. os.marshal state ≡ ok d) s.content (save_solver_state os networks state s)
  unfolding save_solver_state
  save_solver_state-Atomic state s =
      let P : Bytes → Type 0 = λ d. os.marshal state ≡ ok d in
      Atomic-then P _ os.mkdir_all _ s s.content refl λ s1 e1.
        Atomic-call P _ (λ t. os.marshal state) _ s1 s.content e1
          λ d s2 m e2. Atomic-then P _ os.create_temp _ s2 s.content e2 λ s3 e3.
            Atomic-then P _ os.write _ s3 s.content e3 λ s4 e4.
              Atomic-then P _ os.sync _ s4 s.content e4 λ s5 e5.
                Atomic-then P _ os.close _ s5 s.content e5 λ s6 e6.
                  Atomic-then P _ os.rename _ s6 s.content e6
                    λ s7 e7. Atomic-replace P d s7 s.content m
