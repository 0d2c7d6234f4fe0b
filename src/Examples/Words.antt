-- ===== src/Examples/Words.antt =====
-- Numbers, identifiers, addresses and the environment.
use oif_starknet.Prelude.{ℕ, ◌+◌, ◌/◌, ◌%◌, ◌^◌, ◌≡◌, refl, ◌∷◌, ◌++◌, map, All, arith, replicate}
use oif_starknet.Prelude.Result.{ok}
use oif_starknet.Prelude.Text.{Bytes, str}
use oif_starknet.Prelude.BigInt.{set_bytes}
use oif_starknet.Prelude.Hex.{IsByte, encode_to_string}
use oif_starknet.Types.{ParsedArgs}
use oif_starknet.Types.OrderId.{get_order_id_bytes, get_order_id_bytes-encode_to_string}
use oif_starknet.Types.Address.{to_bytes32, to_evm_address, copy_at}
use oif_starknet.Types.Address.Laws.{hex_text, to_bytes32-hex_text, to_evm_address-copy_at}
use oif_starknet.StarknetUtil.{
  convert_solidity_order_id_for_starknet, bytes_to_u128_felts, split_u256, or_u256, add_u256,
}
use oif_starknet.StarknetUtil.Words.{
  join_words, filler, u256_round_trip, convert_solidity_order_id_lem, bytes_to_u128_felts_value,
}
use oif_starknet.Examples.Data.{geth, felts, felts-KeepsSmall, order}

abbrev long_word : Bytes
long_word = replicate 32 171

abbrev long_order : ParsedArgs
long_order = record order { order_id = 48 ∷ 120 ∷ encode_to_string long_word }

abbrev address : Bytes
address = replicate 20 171

long_word_bytes : All IsByte long_word
long_word_bytes = omega arith

address_bytes : All IsByte address
address_bytes = omega arith

u256_round_trip_example :
    (or_u256 felts (split_u256 felts (2 ^ 200 + 3)).0 (split_u256 felts (2 ^ 200 + 3)).1
      ≡ 2 ^ 200 + 3)
    × (add_u256 felts (split_u256 felts (2 ^ 200 + 3)).0 (split_u256 felts (2 ^ 200 + 3)).1
        ≡ 2 ^ 200 + 3)
u256_round_trip_example = u256_round_trip felts felts-KeepsSmall (2 ^ 200 + 3) (omega arith)

convert_solidity_order_id_example :
    (low : ℕ) × (high : ℕ) × (convert_solidity_order_id_for_starknet felts (str "0x1")
      ≡ ok (low, high))
    × (low ≡ (2 ^ 128 + 5) % 2 ^ 128)
    × (high ≡ (2 ^ 128 + 5) / 2 ^ 128)
convert_solidity_order_id_example =
    convert_solidity_order_id_lem felts felts-KeepsSmall (str "0x1") (2 ^ 128 + 5) refl
      (omega arith)

bytes_to_u128_felts_example :
    join_words 0 (map (λ n. n) (bytes_to_u128_felts felts long_word))
    ≡ set_bytes (long_word ++ filler long_word)
bytes_to_u128_felts_example =
    bytes_to_u128_felts_value felts felts-KeepsSmall long_word long_word_bytes

get_order_id_bytes_example : get_order_id_bytes long_order ≡ long_word
get_order_id_bytes_example =
    get_order_id_bytes-encode_to_string long_order long_word long_word_bytes refl refl

to_bytes32_example : to_bytes32 geth (hex_text long_word) ≡ ok long_word
to_bytes32_example = to_bytes32-hex_text geth long_word long_word_bytes refl

to_evm_address_example : to_evm_address geth (hex_text (copy_at 12 address)) ≡ ok address
to_evm_address_example = to_evm_address-copy_at geth address address_bytes refl refl
