-- ===== src/StarknetUtil.antt =====
-- solver/pkg/starknetutil/starknetutil.go: numbers, order identifiers and bytes as field elements.
-- `felt.Felt` and the conversions of juno and starknet.go are the record `Felts`.
pub mod Words
use oif_starknet.Prelude.{
  ℕ, zero, suc, ◌+◌, ◌-◌, ◌*◌, ◌/◌, ◌%◌, ◌^◌, ◌≡◌, ◌<◌, Bool, List, [], ◌∷◌, ◌++◌, Option, none,
  some, ltb, if◌then◌else◌, length, take, drop, replicate,
}
use Prim.Native.Nat.{bit_and, bit_or}
use oif_starknet.Prelude.Result.{Result, ok, err, panic, errorf, index_out_of_range, ◌>>=◌}
use oif_starknet.Prelude.Text.{Bytes, GoString}
use oif_starknet.Prelude.BigInt.{set_bytes, big_bytes}

pub record Felts (Felt : Type 0) : Type 0 where
  -- `utils.BigIntToFelt`, `utils.FeltToBigInt`, `utils.Uint64ToFelt`
  pub big_int_to_felt : ℕ → Felt
  pub felt_to_big_int : Felt → ℕ
  pub uint64_to_felt : ℕ → Felt
  -- `utils.HexToFelt`
  pub hex_to_felt : GoString → Result Felt
  -- `utils.HexToBN`, which returns nil for a text that is no number
  pub hex_to_bn : GoString → Option ℕ
  -- `Felt.Bytes`
  pub bytes : Felt → Bytes
  -- `Felt.String`
  pub to_string : Felt → GoString

-- Documented: a number below the field's prime, such as one of at most 251 bits, is kept.
abbrev pub KeepsSmall : {Felt : Type 0} → Felts Felt → Type 0
KeepsSmall fs = (n : ℕ) → n < 2 ^ 251 → fs.felt_to_big_int (fs.big_int_to_felt n) ≡ n

abbrev pub bytes32_length : ℕ
bytes32_length = 32

abbrev pub bytes16_length : ℕ
bytes16_length = 16

-- `padded := make([]byte, 32); copy(padded[32-len(b):], b)`, if `b` is shorter than 32 bytes.
unfoldable pub pad_bytes32 : Bytes → Bytes
pad_bytes32 b =
    if ltb (length b) bytes32_length then replicate (bytes32_length - length b) 0 ++ b else b

-- `chunk := make([]byte, 16); copy(chunk, b)` for the next, perhaps shorter, chunk.
unfoldable pub pad_chunk : Bytes → Bytes
pad_chunk b = b ++ replicate (bytes16_length - length b) 0

module _ {Felt : Type 0} (fs : Felts Felt) where
  -- The order identifier's bytes; a byte string has at least 32 bytes after the padding.
  unfoldable pub split_order_id : Bytes → Felt × Felt
  split_order_id order_bytes =
      let left16 = fs.big_int_to_felt (set_bytes (take 16 order_bytes)) in
      let right16 = fs.big_int_to_felt (set_bytes (take 16 (drop 16 order_bytes))) in
      (right16, left16)

  unfoldable pub order_number_felts : Option ℕ → Result (Felt × Felt)
  unfolding split_order_id pad_bytes32
  order_number_felts none = err (errorf "invalid hex string")
  order_number_felts (some order_bn) = ok (split_order_id (pad_bytes32 (big_bytes order_bn)))

  -- The low and the high field element of an order identifier.
  unfoldable pub convert_solidity_order_id_for_starknet : GoString → Result (Felt × Felt)
  unfolding order_number_felts
  convert_solidity_order_id_for_starknet order_id = order_number_felts (fs.hex_to_bn order_id)

  -- The loop of `BytesToU128Felts` over what is left of the bytes; a round takes 16 of them.
  unfoldable pub words_from : ℕ → Bytes → List Felt
  unfolding pad_chunk
  words_from zero b = []
  words_from (suc fuel) [] = []
  words_from (suc fuel) (x ∷ b) =
      fs.big_int_to_felt (set_bytes (pad_chunk (take bytes16_length (x ∷ b))))
      ∷ words_from fuel (drop bytes16_length (x ∷ b))

  unfoldable pub bytes_to_u128_felts : Bytes → List Felt
  unfolding words_from
  bytes_to_u128_felts b = words_from (length b) b

  -- `new(big.Int).And(amount, (1 << 128) - 1)` and `new(big.Int).Rsh(amount, 128)`, as elements.
  unfoldable pub split_u256 : ℕ → Felt × Felt
  split_u256 amount =
      (fs.big_int_to_felt (bit_and amount (2 ^ 128 - 1)), fs.big_int_to_felt (amount / 2 ^ 128))

  -- `uint256.FromBig` keeps the number modulo 2^256.
  unfoldable pub convert_big_int_to_u256_felts : ℕ → Felt × Felt
  unfolding split_u256
  convert_big_int_to_u256_felts value = split_u256 (value % 2 ^ 256)

  -- `(high << 128) | low` of two answered elements.
  unfoldable pub or_u256 : Felt → Felt → ℕ
  or_u256 low high = bit_or (fs.felt_to_big_int high * 2 ^ 128) (fs.felt_to_big_int low)

  -- `low + (high << 128)` of two answered elements.
  unfoldable pub add_u256 : Felt → Felt → ℕ
  add_u256 low high = fs.felt_to_big_int low + fs.felt_to_big_int high * 2 ^ 128
