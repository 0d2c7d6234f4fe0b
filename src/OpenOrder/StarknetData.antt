-- ===== src/OpenOrder/StarknetData.antt =====
-- solver/cmd/tools/open-order/starknet_order.go: the order data of a Starknet order, as bytes and as
-- field elements.
pub mod Words
pub mod Decoded
use oif_starknet.Prelude.{
  ℕ, zero, suc, ◌+◌, ◌-◌, ◌/◌, ◌%◌, ◌^◌, List, [], ◌∷◌, ◌++◌, Option, none, some, ltb, leb,
  if◌then◌else◌, length, take, drop, replicate,
}
use oif_starknet.Prelude.Text.{Bytes}
use oif_starknet.Prelude.BigInt.{set_bytes, big_bytes, to_uint32}
use oif_starknet.StarknetUtil.{Felts}

-- `data_elements` is `Data`; an amount may be nil.
pub record StarknetOrderData (Felt : Type 0) : Type 0 where
  pub sender : Felt
  pub recipient : Felt
  pub input_token : Felt
  pub output_token : Felt
  pub amount_in : Option ℕ
  pub amount_out : Option ℕ
  pub sender_nonce : Felt
  pub origin_domain : ℕ
  pub destination_domain : ℕ
  pub destination_settler : Felt
  pub open_deadline : ℕ
  pub fill_deadline : ℕ
  pub data_elements : List Felt

abbrev pub data_offset : ℕ
data_offset = 384

unfoldable pub left_pad : Bytes → ℕ → Bytes
left_pad src size =
    if leb size (length src)
    then drop (length src - size) src
    else replicate (size - length src) 0 ++ src

unfoldable pub u256_to_bytes32 : Option ℕ → Bytes
unfolding left_pad
u256_to_bytes32 none = replicate 32 0
u256_to_bytes32 (some n) = left_pad (big_bytes n) 32

unfoldable pub u32_word : ℕ → Bytes
u32_word v =
    replicate 28 0 ++ (v / 2 ^ 24 % 256 ∷ v / 2 ^ 16 % 256 ∷ v / 2 ^ 8 % 256 ∷ v % 256 ∷ [])

unfoldable pub write_word : Bytes → Bytes → Bytes
unfolding left_pad
write_word dst word = dst ++ left_pad word 32

-- Calls of `writeWord`, one behind the other.
unfoldable pub write_words : Bytes → List Bytes → Bytes
unfolding write_word
write_words dst [] = dst
write_words dst (word ∷ words) = write_words (write_word dst word) words

-- The 16 bytes of a round of the last loop, over what is left of the bytes.
unfoldable pub next_chunk : Bytes → Bytes
next_chunk b = if ltb (length b) 16 then b ++ replicate (16 - length b) 0 else take 16 b

module _ {Felt : Type 0} (fs : Felts Felt) where
  unfoldable pub felt_to_bytes32 : Felt → Bytes
  felt_to_bytes32 f =
      let b = fs.bytes f in
      if leb 32 (length b)
      then take 32 (drop (length b - 32) b)
      else replicate (32 - length b) 0 ++ b

  -- The words that are written, in their order.
  unfoldable pub order_data_words : StarknetOrderData Felt → List Bytes
  unfolding felt_to_bytes32 u256_to_bytes32 u32_word
  order_data_words od =
      u32_word 32
      ∷ felt_to_bytes32 od.sender
      ∷ felt_to_bytes32 od.recipient
      ∷ felt_to_bytes32 od.input_token
      ∷ felt_to_bytes32 od.output_token
      ∷ u256_to_bytes32 od.amount_in
      ∷ u256_to_bytes32 od.amount_out
      ∷ felt_to_bytes32 od.sender_nonce
      ∷ u32_word od.origin_domain
      ∷ u32_word od.destination_domain
      ∷ felt_to_bytes32 od.destination_settler
      ∷ u32_word (to_uint32 od.fill_deadline)
      ∷ u32_word data_offset
      ∷ []
      ∷ []

  -- `raw`
  unfoldable pub raw_order_data : StarknetOrderData Felt → Bytes
  unfolding write_words order_data_words
  raw_order_data od = write_words [] (order_data_words od)

  -- The last loop, on a number of rounds.
  unfoldable pub u128_words : ℕ → Bytes → List Felt
  unfolding next_chunk
  u128_words zero b = []
  u128_words (suc rounds) b =
      fs.big_int_to_felt (set_bytes (next_chunk b)) ∷ u128_words rounds (drop 16 b)

  unfoldable pub encode_starknet_order_data : StarknetOrderData Felt → List Felt
  unfolding raw_order_data u128_words
  encode_starknet_order_data od =
      let raw = raw_order_data od in
      let words = u128_words ((length raw + 15) / 16) raw in
      fs.uint64_to_felt (length raw) ∷ fs.uint64_to_felt (length words) ∷ words
