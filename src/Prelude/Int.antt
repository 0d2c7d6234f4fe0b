-- ===== src/Prelude/Int.antt =====
-- Signed integers over the native numbers: `int64`, `int`.
use Prim.Native.Nat.{ℕ, zero, suc, ◌+◌, ◌-◌, ◌%◌, ◌^◌}
use oif_starknet.Prelude.Tests.{ltb, if◌then◌else◌}

-- `negsuc n` is -(n + 1).
pub data ℤ : Type 0 where
  pos : ℕ → ℤ
  negsuc : ℕ → ℤ

-- `-n`
abbrev pub neg : ℕ → ℤ
neg zero = pos zero
neg (suc n) = negsuc n

infixl 6 ◌+ℤ◌
abbrev pub ◌+ℤ◌ : ℤ → ℤ → ℤ
pos m +ℤ pos n = pos (m + n)
pos m +ℤ negsuc n = if ltb n m then pos (m - n - 1) else negsuc (n - m)
negsuc m +ℤ pos n = if ltb m n then pos (n - m - 1) else negsuc (m - n)
negsuc m +ℤ negsuc n = negsuc (m + n + 1)

-- Go's `a % m`, which has the sign of `a`.
abbrev pub rem : ℤ → ℕ → ℤ
rem (pos n) m = pos (n % m)
rem (negsuc n) m = neg ((n + 1) % m)

-- `int64` and `uint64` of the other: the number of a 64-bit pattern, and the pattern of a number.
abbrev pub int64_of : ℕ → ℤ
int64_of p = if ltb p (2 ^ 63) then pos p else negsuc (2 ^ 64 - p - 1)

abbrev pub uint64_of : ℤ → ℕ
uint64_of (pos n) = n % 2 ^ 64
uint64_of (negsuc n) = 2 ^ 64 - (n % 2 ^ 64 + 1)
