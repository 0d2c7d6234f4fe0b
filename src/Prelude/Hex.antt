-- ===== src/Prelude/Hex.antt =====
-- What the program uses of the package `encoding/hex`, and bytes as hexadecimal text.
use oif_starknet.Prelude.Tests.{ltb, leb, if◌then◌else◌}
use oif_starknet.Prelude.Lists.{length, All}
use oif_starknet.Prelude.Text.{Bytes, GoString}
use oif_starknet.Prelude.Result.{Result, ok, err, errorf, ◌>>=◌, both_ok}
use Prim.Native.Nat.{ℕ, ◌+◌, ◌-◌, ◌*◌, ◌/◌, ◌%◌, ◌<◌}
use mathlib.Core.Path.{◌≡◌, refl, sym}
use mathlib.Core.Bool.{◌&&◌}
use mathlib.Core.List.{[], ◌∷◌}
use native.Mathlib.Omega.{arith}

abbrev pub IsByte : ℕ → Type 0
IsByte b = b < 256

-- The lower-case digit of a half byte.
unfoldable pub hex_digit : ℕ → ℕ
hex_digit n = if ltb n 10 then n + 48 else n + 87

-- `hex.EncodeToString`
unfoldable pub encode_to_string : Bytes → GoString
encode_to_string [] = []
encode_to_string (b ∷ r) = hex_digit (b / 16) ∷ hex_digit (b % 16) ∷ encode_to_string r

-- The value of a hexadecimal digit.
unfoldable pub from_hex_char : ℕ → Result ℕ
from_hex_char c =
    if leb 48 c && leb c 57
    then ok (c - 48)
    else if leb 97 c && leb c 102
    then ok (c - 97 + 10)
    else if leb 65 c && leb c 70
    then ok (c - 65 + 10)
    else err (errorf "encoding/hex: invalid byte")

-- `hex.DecodeString`
unfoldable pub decode_string : GoString → Result Bytes
decode_string [] = ok []
decode_string (a ∷ []) = do x ← from_hex_char a; err (errorf "encoding/hex: odd length hex string")
decode_string (a ∷ b ∷ s) = do
  x ← from_hex_char a
  y ← from_hex_char b
  r ← decode_string s
  ok ((x * 16 + y) ∷ r)

pub from_hex_char-hex_digit : (n : ℕ) → n < 16 → from_hex_char (hex_digit n) ≡ ok n
unfolding from_hex_char hex_digit
from_hex_char-hex_digit n h = ground arith

-- Decoding the text of some bytes gives the bytes back.
pub decode_string-encode_to_string :
    (b : Bytes) → All IsByte b → decode_string (encode_to_string b) ≡ ok b
unfolding decode_string encode_to_string
decode_string-encode_to_string [] h = refl
decode_string-encode_to_string (b ∷ r) h = ground (
  arith,
  from_hex_char-hex_digit (b / 16),
  from_hex_char-hex_digit (b % 16),
  decode_string-encode_to_string r h.1,
)

pub length-encode_to_string : (b : Bytes) → length (encode_to_string b) ≡ 2 * length b
unfolding encode_to_string
length-encode_to_string [] = refl
length-encode_to_string (b ∷ r) = omega (arith, length-encode_to_string r)

-- What `hex.DecodeString` accepts has half as many bytes as digits.
pub length-decode_string :
    (s : GoString) (b : Bytes) → decode_string s ≡ ok b → length s ≡ 2 * length b
unfolding decode_string
length-decode_string [] b h = ground arith
length-decode_string (a ∷ []) b h = ground arith
length-decode_string (a ∷ c ∷ s) b h =
    let (x, hx, _) = both_ok _ _ (from_hex_char a) (sym h) in
    let (y, hy, _) = both_ok _ _ (from_hex_char c) (sym hx) in
    let (r, e, hr) = both_ok _ _ (decode_string s) (sym hy) in
    let n : length s ≡ 2 * length r = length-decode_string s r hr in ground arith
