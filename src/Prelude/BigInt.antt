-- ===== src/Prelude/BigInt.antt =====
-- What the program uses of `math/big` on numbers that are not negative: `SetBytes`, `Bytes`,
-- `Uint64`, and the parts of a 256-bit number.
use Prim.Native.Nat.{ℕ, zero, suc, ◌+◌, ◌*◌, ◌/◌, ◌%◌, ◌^◌, ◌≤◌, ◌<◌}
use mathlib.Core.Path.{ap, sym, ◌≡◌, refl, ◌∙◌}
use mathlib.Core.Logic.{inl, inr}
use mathlib.Core.List.{[], ◌∷◌, ◌++◌}
use native.Mathlib.Nat.{pow-suc}
use native.Mathlib.Omega.{arith}
use oif_starknet.Prelude.Tests.{◌==◌, if◌then◌else◌, Bool-cases}
use oif_starknet.Prelude.Lists.{length, All, length-append, replicate}
use oif_starknet.Prelude.Text.{Bytes}
use oif_starknet.Prelude.Hex.{IsByte}

-- `new(big.Int).SetBytes(b)`: big-endian.
unfoldable pub set_bytes_from : ℕ → Bytes → ℕ
set_bytes_from n [] = n
set_bytes_from n (b ∷ s) = set_bytes_from (n * 256 + b) s

unfoldable pub set_bytes : Bytes → ℕ
unfolding set_bytes_from
set_bytes b = set_bytes_from 0 b

-- `x.Bytes()`: big-endian, with no leading zero byte. The fuel is the number itself.
unfoldable pub bytes_from : ℕ → ℕ → Bytes
bytes_from zero n = []
bytes_from (suc fuel) n =
    let front = bytes_from fuel (n / 256) in if n == 0 then [] else front ++ (n % 256) ∷ []

unfoldable pub big_bytes : ℕ → Bytes
unfolding bytes_from
big_bytes n = bytes_from n n

-- `x.Uint64()`: the low 64 bits.
abbrev pub to_uint64 : ℕ → ℕ
to_uint64 x = x % 2 ^ 64

abbrev pub to_uint32 : ℕ → ℕ
to_uint32 x = x % 2 ^ 32

set_bytes_from_lem :
    (n : ℕ) (b : Bytes) → set_bytes_from n b ≡ n * 256 ^ length b + set_bytes_from 0 b
unfolding set_bytes_from
set_bytes_from_lem n [] = omega arith
set_bytes_from_lem n (b ∷ s) =
    set_bytes_from_lem (n * 256 + b) s
    ∙ weigh n b (256 ^ length s) (256 ^ suc (length s)) (set_bytes_from 0 s)
        (set_bytes_from (0 * 256 + b) s) (pow-suc 256 (length s))
        (set_bytes_from_lem (0 * 256 + b) s)
  where
    weigh :
        (n b p q r t : ℕ)
        → q ≡ p * 256
        → t ≡ (0 * 256 + b) * p + r
        → (n * 256 + b) * p + r ≡ n * q + t
    weigh n b p q r t e h = rw (e, h) (omega arith)

pub set_bytes_from-eq-set_bytes :
    (n : ℕ) (b : Bytes) → set_bytes_from n b ≡ n * 256 ^ length b + set_bytes b
unfolding set_bytes
set_bytes_from-eq-set_bytes = set_bytes_from_lem

pub set_bytes_from-append :
    (n : ℕ) (a b : Bytes) → set_bytes_from n (a ++ b) ≡ set_bytes_from (set_bytes_from n a) b
unfolding set_bytes_from
set_bytes_from-append n [] b = refl
set_bytes_from-append n (x ∷ a) b = set_bytes_from-append (n * 256 + x) a b

-- The front of a byte string weighs 256 for each byte behind it.
pub set_bytes-append :
    (a b : Bytes) → set_bytes (a ++ b) ≡ set_bytes a * 256 ^ length b + set_bytes b
unfolding set_bytes
set_bytes-append a b = from 0 a
  where
    from :
        (n : ℕ) (a : Bytes)
        → set_bytes_from n (a ++ b) ≡ set_bytes_from n a * 256 ^ length b + set_bytes_from 0 b
    from n [] = set_bytes_from_lem n b
    from n (x ∷ a) = from (n * 256 + x) a

pub set_bytes-lt : (b : Bytes) → All IsByte b → set_bytes b < 256 ^ length b
unfolding set_bytes set_bytes_from
set_bytes-lt [] h = omega arith
set_bytes-lt (x ∷ b) h =
    fits (256 ^ length b) (256 ^ suc (length b)) (set_bytes_from 0 b)
      (set_bytes_from (0 * 256 + x) b) (pow-suc 256 (length b)) (set_bytes_from_lem (0 * 256 + x) b)
      h.0 (set_bytes-lt b h.1)
  where
    fits : (p q r t : ℕ) → q ≡ p * 256 → t ≡ (0 * 256 + x) * p + r → x < 256 → r < p → t < q
    fits p q r t e f hx hr = rw (e, f) (grind arith)

set_bytes-last :
    (front : Bytes) (n : ℕ) → set_bytes front ≡ n / 256 → set_bytes (front ++ (n % 256) ∷ []) ≡ n
set_bytes-last front n ih = set_bytes-append front ((n % 256) ∷ []) ∙ omega (arith, one_byte)
  where
    one_byte : set_bytes ((n % 256) ∷ []) ≡ n % 256
    one_byte = unfold set_bytes set_bytes_from in omega arith

pub set_bytes-big_bytes : (n : ℕ) → set_bytes (big_bytes n) ≡ n
unfolding big_bytes
set_bytes-big_bytes n = on_fuel n n (omega arith)
  where
    on_fuel : (f n : ℕ) → n ≤ f → set_bytes (bytes_from f n) ≡ n
    on_fuel zero n h = unfold set_bytes bytes_from in omega arith
    on_fuel (suc f) n h = elim (Bool-cases (n == 0)) [
      | inl e ↦ unfold bytes_from set_bytes in rw e (ground arith)
      | inr e ↦
          let ih : set_bytes (bytes_from f (n / 256)) ≡ n / 256 =
            on_fuel f (n / 256) (ground arith) in
          unfold bytes_from in rw e (set_bytes-last (bytes_from f (n / 256)) n ih)
    ]

bytes_from-IsByte : (f n : ℕ) → All IsByte (bytes_from f n)
unfolding bytes_from
bytes_from-IsByte zero n = tt
bytes_from-IsByte (suc f) n = elim (Bool-cases (n == 0)) [
  | inl e ↦ rw e tt
  | inr e ↦ rw e (snoc (bytes_from f (n / 256)) (bytes_from-IsByte f (n / 256)))
]
  where
    snoc : (b : Bytes) → All IsByte b → All IsByte (b ++ (n % 256) ∷ [])
    snoc [] h = omega arith
    snoc (x ∷ b) h = (h.0, snoc b h.1)

pub big_bytes-IsByte : (n : ℕ) → All IsByte (big_bytes n)
unfolding big_bytes
big_bytes-IsByte n = bytes_from-IsByte n n

length-bytes_from : (k f n : ℕ) → n < 256 ^ k → length (bytes_from f n) ≤ k
unfolding bytes_from
length-bytes_from k zero n h = omega arith
length-bytes_from zero (suc f) n h = elim (Bool-cases (n == 0)) [
  | inl e ↦ rw e (omega arith)
  | inr e ↦ absurd (ground arith)
]
length-bytes_from (suc k) (suc f) n h = elim (Bool-cases (n == 0)) [
  | inl e ↦ rw e (omega arith)
  | inr e ↦
      let small : n / 256 < 256 ^ k = shrink (256 ^ k) (256 ^ suc k) (pow-suc 256 k) h in
      rw e (
        omega (
          arith,
          length-append (bytes_from f (n / 256)) ((n % 256) ∷ []),
          length-bytes_from k f (n / 256) small,
        ))
]
  where
    shrink : (p q : ℕ) → q ≡ p * 256 → n < q → n / 256 < p
    shrink p q e h = omega arith

-- A number of at most `k` bytes is written with at most `k` bytes.
pub length-big_bytes : (k n : ℕ) → n < 256 ^ k → length (big_bytes n) ≤ k
unfolding big_bytes
length-big_bytes k n h = length-bytes_from k n n h

set_bytes-replicate_zero : (k : ℕ) → set_bytes (replicate k 0) ≡ 0
unfolding set_bytes set_bytes_from
set_bytes-replicate_zero zero = refl
set_bytes-replicate_zero (suc k) = set_bytes-replicate_zero k

-- Leading zero bytes weigh nothing.
pub set_bytes-zeros : (k : ℕ) (b : Bytes) → set_bytes (replicate k 0 ++ b) ≡ set_bytes b
set_bytes-zeros k b =
    set_bytes-append (replicate k 0) b ∙ rw (set_bytes-replicate_zero k) (omega arith)

leading_digit : (x y r s m : ℕ) → r < m → s < m → x * m + r ≡ y * m + s → (x ≡ y) × (r ≡ s)
leading_digit zero zero r s m hr hs e = (refl, omega arith)
leading_digit zero (suc y) r s m hr hs e = absurd (grind arith)
leading_digit (suc x) zero r s m hr hs e = absurd (grind arith)
leading_digit (suc x) (suc y) r s m hr hs e =
    let rest = leading_digit x y r s m hr hs (grind arith) in (ap suc rest.0, rest.1)

-- Bytes of the same length with the same number are the same.
pub set_bytes-injective :
    (a b : Bytes)
    → length a ≡ length b
    → All IsByte a
    → All IsByte b
    → set_bytes a ≡ set_bytes b
    → a ≡ b
set_bytes-injective [] [] h ha hb e = refl
set_bytes-injective [] (y ∷ b) h ha hb e = absurd (omega arith)
set_bytes-injective (x ∷ a) [] h ha hb e = absurd (omega arith)
set_bytes-injective (x ∷ a) (y ∷ b) h ha hb e =
    let size : length a ≡ length b = omega arith in
    let low_a = set_bytes-lt a ha.1 in
    let low_b : set_bytes b < 256 ^ length a = rw (sym size) at (set_bytes-lt b hb.1) in
    let digits =
      leading_digit (one x) (one y) (set_bytes a) (set_bytes b) (256 ^ length a) low_a low_b
        (sym (set_bytes-append (x ∷ []) a) ∙ e ∙ weigh size) in
    cc (one_eq x, one_eq y, digits.0, set_bytes-injective a b size ha.1 hb.1 digits.1)
  where
    one : ℕ → ℕ
    one x = set_bytes (x ∷ [])

    one_eq : (x : ℕ) → one x ≡ x
    one_eq x = unfold set_bytes set_bytes_from in omega arith

    weigh :
        length a ≡ length b → set_bytes (y ∷ b) ≡ set_bytes (y ∷ []) * 256 ^ length a + set_bytes b
    weigh size = rw size (set_bytes-append (y ∷ []) b)
