-- ===== src/Types/Address.antt =====
-- solver/solvercore/types/address_utils.go: addresses as text, as 20 bytes and as 32 bytes.
-- `common.Address` is a list of bytes. What the code calls of go-ethereum is the record `Geth`.
pub mod Laws
use oif_starknet.Prelude.{
  ℕ, ◌+◌, ◌-◌, Bool, List, [], ◌∷◌, ◌++◌, ◌==◌, if◌then◌else◌, length, take, drop, replicate, ◌≡◌,
}
use oif_starknet.Prelude.Result.{Result, ok, err, errorf, wrapping, ◌>>=◌}
use oif_starknet.Prelude.Text.{Bytes, GoString, trim_0x, to_lower}
use oif_starknet.Prelude.Hex.{decode_string}

abbrev pub Address : Type 0
Address = Bytes

-- The functions of go-ethereum's `common` that the program calls.
pub record Geth : Type 0 where
  -- `common.FromHex`
  pub from_hex : GoString → Bytes
  -- `common.HexToAddress`
  pub hex_to_address : GoString → Address
  -- `common.BytesToAddress`
  pub bytes_to_address : Bytes → Address
  -- `Address.Hex`
  pub hex : Address → GoString
  -- `common.BytesToHash`, `common.HexToHash` and `Hash.Hex`
  pub bytes_to_hash : Bytes → Bytes
  pub hex_to_hash : GoString → Bytes
  pub hash_hex : Bytes → GoString

abbrev pub starknet_address_length : ℕ
starknet_address_length = 64

abbrev pub ethereum_address_length : ℕ
ethereum_address_length = 40

abbrev pub starknet_address_length_with_prefix : ℕ
starknet_address_length_with_prefix = 62

abbrev pub bytes32_length : ℕ
bytes32_length = 32

abbrev pub bytes31_length : ℕ
bytes31_length = 31

-- `var result [32]byte; copy(result[i:], b)`
unfoldable pub copy_at : ℕ → Bytes → Bytes
copy_at i b = replicate i 0 ++ (take (32 - i) b ++ replicate (32 - i - length b) 0)

-- The value `[32]byte{}`.
abbrev pub zero_bytes32 : Bytes
zero_bytes32 = replicate 32 0

module _ (g : Geth) where
  unfoldable pub to_evm_address : GoString → Result Address
  to_evm_address address =
      let clean_addr = trim_0x address in
      if length clean_addr == ethereum_address_length
      then ok (g.hex_to_address address)
      else if length clean_addr == starknet_address_length
      then (do
        bytes ← wrapping "failed to decode bytes32 address" (decode_string clean_addr)
        if length bytes == bytes32_length
            then ok (g.bytes_to_address (drop 12 bytes))
            else err (errorf "invalid bytes32 address length"))
      else err (errorf "unsupported address format")

  unfoldable pub to_bytes32 : GoString → Result Bytes
  to_bytes32 address =
      let clean_addr = trim_0x address in
      if length clean_addr == starknet_address_length
      then (do
        bytes ← wrapping "failed to decode bytes32 address" (decode_string clean_addr)
        if length bytes == bytes32_length
            then ok (copy_at 0 bytes)
            else err (errorf "invalid bytes32 address length"))
      else if length clean_addr == starknet_address_length_with_prefix
      then (do
        bytes ← wrapping "failed to decode Starknet address" (decode_string clean_addr)
        if length bytes == bytes31_length
            then ok (copy_at 1 bytes)
            else err (errorf "invalid Starknet address length"))
      else if length clean_addr == ethereum_address_length
      then ok (copy_at 12 (g.hex_to_address address))
      else err (errorf "unsupported address format")

unfoldable pub is_starknet_address : GoString → Bool
is_starknet_address address = length (trim_0x address) == starknet_address_length

unfoldable pub is_evm_address : GoString → Bool
is_evm_address address = length (trim_0x address) == ethereum_address_length

unfoldable pub is_bytes32_address : GoString → Bool
is_bytes32_address address = length (trim_0x address) == starknet_address_length

unfoldable pub format_address : GoString → GoString
format_address address = to_lower (trim_0x address)
