-- ===== src/Prelude/Bits.antt =====
-- `And` with a mask of ones and `Or` of disjoint fields, as arithmetic.
use Prim.Native.Nat.{
  ℕ, zero, suc, ◌+◌, ◌-◌, ◌*◌, ◌/◌, ◌%◌, ◌^◌, ◌≤◌, ◌<◌, min, max, digits, bitwise, bit_and, bit_or,
  bit_and-bitwise, bit_or-bitwise,
}
use mathlib.Core.Path.{◌≡◌, refl, ap}
use native.Mathlib.Nat.{pow-suc, one-le-pow, le_refl}
use native.Mathlib.Omega.{arith}

module _ (rest : ℕ → ℕ) (op : ℕ → ℕ → ℕ) where
  -- The recursion on binary digits gives the same on every fuel from its first argument up.
  same_on_fuel : (k l x y : ℕ) → x ≤ l → x ≤ k → digits rest op k x y ≡ digits rest op l x y
  same_on_fuel (suc k) (suc l) (suc x) y hl hk =
      rw (same_on_fuel k l (suc x / 2) (y / 2) (omega arith) (omega arith))
  same_on_fuel (suc k) zero (suc x) y hl hk = absurd (omega arith)
  same_on_fuel zero l (suc x) y hl hk = absurd (omega arith)
  same_on_fuel (suc k) (suc l) zero y hl hk = refl
  same_on_fuel (suc k) zero zero y hl hk = refl
  same_on_fuel zero (suc l) zero y hl hk = refl
  same_on_fuel zero zero zero y hl hk = refl

  lowest_digit :
      (x y : ℕ)
      → bitwise rest op (suc x) y ≡ bitwise rest op (suc x / 2) (y / 2) * 2 + op (suc x % 2) (y % 2)
  lowest_digit x y =
      omega (arith, same_on_fuel x (suc x / 2) (suc x / 2) (y / 2) (le_refl _) (omega arith))

bit_and_digit : (x y : ℕ) → bit_and x y ≡ bit_and (x / 2) (y / 2) * 2 + min (x % 2) (y % 2)
bit_and_digit zero y = simp bit_and-bitwise (omega arith)
bit_and_digit (suc x) y = simp bit_and-bitwise (lowest_digit (λ b. 0) min x y)

bit_or_digit : (x y : ℕ) → bit_or x y ≡ bit_or (x / 2) (y / 2) * 2 + max (x % 2) (y % 2)
bit_or_digit zero y = simp bit_or-bitwise (omega arith)
bit_or_digit (suc x) y = simp bit_or-bitwise (lowest_digit (λ b. b) max x y)

-- With no bits on the right, by recursion on a bound of the left side.
and_nothing : (k x : ℕ) → x ≤ k → bit_and x 0 ≡ 0
and_nothing (suc k) (suc x) h =
    let below = and_nothing k (suc x / 2) (omega arith) in
    omega (arith, below, bit_and_digit (suc x) 0)
and_nothing zero (suc x) h = absurd (omega arith)
and_nothing zero zero h = refl
and_nothing (suc k) zero h = refl

or_nothing : (k x : ℕ) → x ≤ k → bit_or x 0 ≡ x
or_nothing (suc k) (suc x) h =
    let below = or_nothing k (suc x / 2) (omega arith) in
    omega (arith, below, bit_or_digit (suc x) 0)
or_nothing zero (suc x) h = absurd (omega arith)
or_nothing zero zero h = refl
or_nothing (suc k) zero h = refl

double : (q k : ℕ) → q * 2 ^ suc k ≡ 2 * (q * 2 ^ k)
double q k = omega (arith, ap (λ (t : ℕ). q * t) (pow-suc 2 k))

mask_of_parts : (k q r : ℕ) → r < 2 ^ k → bit_and (q * 2 ^ k + r) (2 ^ k - 1) ≡ r
mask_of_parts zero q r h = omega (arith, and_nothing (q * 1 + r) (q * 1 + r) (le_refl _))
mask_of_parts (suc k) q r h = ground (
  arith,
  bit_and_digit (q * 2 ^ suc k + r) (2 ^ suc k - 1),
  double q k,
  pow-suc 2 k,
  mask_of_parts k q (r / 2) (omega arith),
)

-- `x & ((1 << k) - 1)` is the remainder of `x`.
pub bit_and-mask : (k x : ℕ) → bit_and x (2 ^ k - 1) ≡ x % 2 ^ k
bit_and-mask k x = ground (arith, one-le-pow k 2, mask_of_parts k (x / 2 ^ k) (x % 2 ^ k))

-- `(h << k) | l` is a sum, if `l` has at most `k` bits.
pub bit_or-fields : (k h l : ℕ) → l < 2 ^ k → bit_or (h * 2 ^ k) l ≡ h * 2 ^ k + l
bit_or-fields zero h l fits = ground (arith, or_nothing h h (le_refl h))
bit_or-fields (suc k) h l fits =
    ground
      (arith, bit_or_digit (h * 2 ^ suc k) l, double h k, bit_or-fields k h (l / 2) (omega arith))
