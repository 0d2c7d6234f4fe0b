-- ===== src/Types/OrderId.antt =====
-- `GetOrderIDBytes` and `hexToByte` of solver/solvercore/types/types.go.
use Prim.Native.Nat.{bit_or}
use oif_starknet.Prelude.{
  ℕ, zero, suc, ◌+◌, ◌-◌, ◌*◌, ◌/◌, ◌%◌, ◌≡◌, ◌<◌, refl, ap, Bool, true, ◌&&◌, [], ◌∷◌, arith, leb,
  ◌==◌, ==_iff, if◌then◌else◌, if_cases, &&-eq-true, length, replicate, All,
}
use oif_starknet.Prelude.Text.{Bytes, GoString}
use oif_starknet.Prelude.Hex.{IsByte, hex_digit, encode_to_string, length-encode_to_string}
use oif_starknet.Types.Order.{ParsedArgs}

-- A character that is no digit counts as 0.
unfoldable pub hex_to_byte : ℕ → ℕ
hex_to_byte c =
    if leb 48 c && leb c 57
    then c - 48
    else if leb 97 c && leb c 102
    then c - 97 + 10
    else if leb 65 c && leb c 70
    then c - 65 + 10
    else 0

-- `hexToByte(high)<<4 | hexToByte(low)` on the type byte.
unfoldable pub join_nibbles : ℕ → ℕ → ℕ
join_nibbles high low = bit_or (high * 16 % 256) low

-- The loop over `i`, which reads the characters `i*2` and `i*2+1`.
unfoldable pub hex_pairs : GoString → Bytes
unfolding join_nibbles hex_to_byte
hex_pairs (high ∷ low ∷ rest) = join_nibbles (hex_to_byte high) (hex_to_byte low) ∷ hex_pairs rest
hex_pairs s = []

-- The test `p.OrderID[:2] == "0x"`, the test of the length, and the loop.
unfoldable pub order_id_bytes : GoString → Bytes
unfolding hex_pairs
order_id_bytes (a ∷ b ∷ hex_str) =
    if (a == 48) && (b == 120) && (length hex_str == 64) then hex_pairs hex_str else replicate 32 0
order_id_bytes s = replicate 32 0

unfoldable pub get_order_id_bytes : ParsedArgs → Bytes
unfolding order_id_bytes
get_order_id_bytes p = order_id_bytes p.order_id

-- A test that every number from `n - 1` down to 0 passes.
passes_to : (ℕ → Bool) → ℕ → Bool
passes_to test zero = true
passes_to test (suc n) = passes_to test n && test n

passes_to-at : (test : ℕ → Bool) (n b : ℕ) → b < n → passes_to test n ≡ true → test b ≡ true
unfolding passes_to
passes_to-at test zero b below h = absurd (omega arith)
passes_to-at test (suc n) b below h = ground (arith, passes_to-at test n b)

nibble_table :
    passes_to
      (λ b. join_nibbles (hex_to_byte (hex_digit (b / 16))) (hex_to_byte (hex_digit (b % 16))) == b)
      256
    ≡ true
unfolding passes_to join_nibbles hex_to_byte hex_digit
nibble_table = refl

nibbles_lem :
    (b : ℕ)
    → b < 256
    → join_nibbles (hex_to_byte (hex_digit (b / 16))) (hex_to_byte (hex_digit (b % 16))) ≡ b
nibbles_lem b h = (==_iff _ b).0 (passes_to-at _ 256 b h nibble_table)

hex_pairs-encode_to_string : (b : Bytes) → All IsByte b → hex_pairs (encode_to_string b) ≡ b
unfolding encode_to_string hex_pairs
hex_pairs-encode_to_string [] h = refl
hex_pairs-encode_to_string (b ∷ r) h = cc (nibbles_lem b h.0, hex_pairs-encode_to_string r h.1)

-- The bytes of an order whose identifier is `0x` and the hexadecimal text of 32 bytes are these
-- bytes.
pub get_order_id_bytes-encode_to_string :
    (p : ParsedArgs) (b : Bytes)
    → All IsByte b
    → length b ≡ 32
    → p.order_id ≡ 48 ∷ 120 ∷ encode_to_string b
    → get_order_id_bytes p ≡ b
unfolding get_order_id_bytes
get_order_id_bytes-encode_to_string p b bytes len e =
    let size : length (encode_to_string b) ≡ 64 = omega (arith, length-encode_to_string b) in
    rw (e, order_id_bytes) (rw size (hex_pairs-encode_to_string b bytes))

length-hex_pairs : (n : ℕ) (s : GoString) → length s ≡ n + n → length (hex_pairs s) ≡ n
unfolding hex_pairs
length-hex_pairs n [] e = omega arith
length-hex_pairs n (a ∷ []) e = absurd (omega arith)
length-hex_pairs zero (a ∷ b ∷ s) e = absurd (omega arith)
length-hex_pairs (suc n) (a ∷ b ∷ s) e = ap suc (length-hex_pairs n s (omega arith))

order_id_bytes_size : (s : GoString) → length (order_id_bytes s) ≡ 32
unfolding order_id_bytes
order_id_bytes_size [] = refl
order_id_bytes_size (a ∷ []) = refl
order_id_bytes_size (a ∷ b ∷ s) =
    if_cases {A = Bytes} (λ r. length r ≡ 32) ((a == 48) && (b == 120) && (length s == 64)) _ _
      (λ h. length-hex_pairs 32 s (size h)) (λ _. refl)
  where
    size : ((a == 48) && (b == 120) && (length s == 64)) ≡ true → length s ≡ 64
    size h =
        let tests = &&-eq-true ((a == 48) && (b == 120)) (length s == 64) h in
        (==_iff (length s) 64).0 tests.1

-- Whatever the identifier, the result has 32 bytes.
pub length-get_order_id_bytes : (p : ParsedArgs) → length (get_order_id_bytes p) ≡ 32
unfolding get_order_id_bytes
length-get_order_id_bytes p = order_id_bytes_size p.order_id
