-- ===== src/Prelude/Scan.antt =====
-- What the program uses of `fmt.Sscanf(s, "%d", &n)`: blanks are skipped, digits are read, and
-- what follows the digits is left.
use Prim.Native.Nat.{ℕ, zero, suc, ◌+◌, ◌-◌, ◌*◌, ◌^◌, ◌<◌}
use mathlib.Core.Path.{◌≡◌}
use mathlib.Core.Bool.{Bool, ◌&&◌, ◌||◌}
use mathlib.Core.Option.{Option, none, some}
use mathlib.Core.List.{[], ◌∷◌}
use native.Mathlib.Omega.{arith}
use oif_starknet.Prelude.Tests.{ltb, leb, ◌==◌, if◌then◌else◌}
use oif_starknet.Prelude.Int.{ℤ, pos, negsuc}
use oif_starknet.Prelude.Text.{GoString}

abbrev is_digit : ℕ → Bool
is_digit c = leb 48 c && leb c 57

abbrev is_blank : ℕ → Bool
is_blank c = (c == 32) || (c == 9) || (leb 11 c && leb c 13)

unfoldable pub skip_blanks : GoString → GoString
skip_blanks [] = []
skip_blanks (c ∷ s) = if is_blank c then skip_blanks s else c ∷ s

-- The digits at the front, read on from `n`.
unfoldable pub more_digits : ℕ → GoString → ℕ
more_digits n [] = n
more_digits n (c ∷ s) =
    let next = more_digits (n * 10 + (c - 48)) s in if is_digit c then next else n

unfoldable pub scan_digits : GoString → Option ℕ
unfolding more_digits
scan_digits [] = none
scan_digits (c ∷ s) = if is_digit c then some (more_digits 0 (c ∷ s)) else none

-- Numbers from `bound` up do not fit.
unfoldable pub below_bound : ℕ → Option ℕ → Option ℕ
below_bound bound none = none
below_bound bound (some n) = if ltb n bound then some n else none

-- `%d` into a `uint64`
unfoldable pub scan_uint64 : GoString → Option ℕ
unfolding scan_digits skip_blanks below_bound
scan_uint64 s = below_bound (2 ^ 64) (scan_digits (skip_blanks s))

negated : Option ℕ → Option ℤ
negated none = none
negated (some zero) = some (pos 0)
negated (some (suc n)) = some (negsuc n)

positive : Option ℕ → Option ℤ
positive none = none
positive (some n) = some (pos n)

-- `%d` into an `int64`
scan_signed : GoString → Option ℤ
scan_signed [] = none
scan_signed (c ∷ s) =
    if c == 45
    then negated (below_bound (2 ^ 63 + 1) (scan_digits s))
    else if c == 43
    then positive (below_bound (2 ^ 63) (scan_digits s))
    else positive (below_bound (2 ^ 63) (scan_digits (c ∷ s)))

unfoldable pub scan_int64 : GoString → Option ℤ
unfolding scan_signed negated positive scan_digits skip_blanks below_bound
scan_int64 s = scan_signed (skip_blanks s)

-- What is read into a `uint64` fits.
pub scan_uint64-lt : (s : GoString) (n : ℕ) → scan_uint64 s ≡ some n → n < 2 ^ 64
unfolding scan_uint64
scan_uint64-lt s n h = fits (scan_digits (skip_blanks s)) h
  where
    fits : (o : Option ℕ) → below_bound (2 ^ 64) o ≡ some n → n < 2 ^ 64
    fits none e = cc
    fits (some m) e = ground arith
