-- ===== src/Prelude/Text.antt =====
-- Go strings as lists of bytes, and what the program uses of the packages `strings` and
-- `encoding/hex`.
use Prim.Native.Char.{code}
use Prim.Native.String.{String}
use Prim.Native.Nat.{ℕ, ◌+◌, ◌-◌}
use mathlib.Core.Path.{◌≡◌}
use mathlib.Core.Logic.{◌↔◌}
use mathlib.Core.Bool.{Bool, true, false, ◌&&◌, ◌||◌}
use mathlib.Core.List.{List, [], ◌∷◌, map}
use native.Mathlib.Omega.{arith}
use oif_starknet.Prelude.Tests.{leb, ◌==◌, if◌then◌else◌}

abbrev pub Bytes : Type 0
Bytes = List ℕ

abbrev pub GoString : Type 0
GoString = List ℕ

-- The bytes of an ASCII literal.
abbrev pub str : String → GoString
str String.[] = []
str (String.◌∷◌ c s) = code c ∷ str s

-- `a == b` on strings and on byte arrays.
unfoldable pub str_eq : GoString → GoString → Bool
str_eq [] [] = true
str_eq [] (b ∷ t) = false
str_eq (a ∷ s) [] = false
str_eq (a ∷ s) (b ∷ t) = (a == b) && str_eq s t

pub str_eq_iff : (s t : GoString) → (str_eq s t ≡ true) ↔ (s ≡ t)
unfolding str_eq
str_eq_iff [] [] = ground arith
str_eq_iff [] (b ∷ t) = ground arith
str_eq_iff (a ∷ s) [] = ground arith
str_eq_iff (a ∷ s) (b ∷ t) = ground (arith, str_eq_iff s t)

-- `strings.HasPrefix(s, p)`
pub has_prefix : GoString → GoString → Bool
has_prefix s [] = true
has_prefix [] (b ∷ p) = false
has_prefix (a ∷ s) (b ∷ p) = (a == b) && has_prefix s p

-- `strings.TrimPrefix(s, "0x")`
unfoldable pub trim_0x : GoString → GoString
trim_0x (a ∷ b ∷ s) = if (a == 48) && (b == 120) then s else a ∷ b ∷ s
trim_0x s = s

-- `strings.Contains(s, p)`
unfoldable pub contains : GoString → GoString → Bool
unfolding has_prefix
contains [] p = has_prefix [] p
contains (a ∷ s) p = has_prefix (a ∷ s) p || contains s p

-- `strings.ToLower` on ASCII text.
unfoldable pub lower_byte : ℕ → ℕ
lower_byte c = if leb 65 c && leb c 90 then c + 32 else c

unfoldable pub to_lower : GoString → GoString
unfolding lower_byte
to_lower s = map lower_byte s

-- `strings.ToUpper` on ASCII text.
unfoldable pub upper_byte : ℕ → ℕ
upper_byte c = if leb 97 c && leb c 122 then c - 32 else c

unfoldable pub to_upper : GoString → GoString
unfolding upper_byte
to_upper s = map upper_byte s
