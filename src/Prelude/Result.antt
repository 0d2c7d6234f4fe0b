-- ===== src/Prelude/Result.antt =====
-- What a Go function that returns `(T, error)` gives: a value, an error value, or a run-time panic.
-- An error keeps the fixed text of its message, and the error that it wraps by `%w` or `%v`.
use Prim.Native.String.{String}
use mathlib.Core.Path.{◌≡◌, refl, subst, sym}

pub data Error : Type 0 where
  errorf : String → Error
  wrap : String → Error → Error

pub data Panic : Type 0 where
  index_out_of_range slice_out_of_range nil_dereference : Panic

pub data Result {ℓ} (A : Type ℓ) : Type ℓ where
  ok : A → Result A
  err : Error → Result A
  panic : Panic → Result A

infixl 10 ◌>>=◌
abbrev pub ◌>>=◌ {ℓ κ} : {A : Type ℓ} {B : Type κ} → Result A → (A → Result B) → Result B
ok a >>= f = f a
err e >>= f = err e
panic p >>= f = panic p

-- `if err != nil { return fmt.Errorf("…: %w", err) }`
abbrev pub wrapping {ℓ} : {A : Type ℓ} → String → Result A → Result A
wrapping text (ok a) = ok a
wrapping text (err e) = err (wrap text e)
wrapping text (panic p) = panic p

-- The steps behind a value that two calls in sequence give.
pub both_ok {κ ℓ} :
    {B : Type κ} {A : Type ℓ} (f : A → Result B) (b : B) (m : Result A)
    → ok b ≡ (m >>= f)
    → (a : A) × (f a ≡ ok b) × (m ≡ ok a)
both_ok f b (panic p) h = cc
both_ok f b (err e) h = cc
both_ok f b (ok a) h = (a, sym h, refl)

-- If there is a value, it has the property.
abbrev pub Ensures {ℓ κ} : {A : Type ℓ} → (A → Type κ) → Result A → Type κ
Ensures P (ok a) = P a
Ensures P (err e) = Unit
Ensures P (panic p) = Unit

pub Ensures-bind {ℓ κ μ} :
    {A : Type ℓ} {B : Type κ} (P : B → Type μ) (m : Result A) (f : A → Result B)
    → ((a : A) → m ≡ ok a → Ensures P (f a))
    → Ensures P (m >>= f)
Ensures-bind P (ok a) f h = h a refl
Ensures-bind P (err e) f h = tt
Ensures-bind P (panic p) f h = tt

pub Ensures-ok {ℓ κ} :
    {A : Type ℓ} (P : A → Type κ) (m : Result A) (a : A) → Ensures P m → m ≡ ok a → P a
Ensures-ok P (ok b) a h e = subst P (cc) h
Ensures-ok P (err x) a h e = cc
Ensures-ok P (panic x) a h e = cc
