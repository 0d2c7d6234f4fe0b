-- ===== src/OpenOrder/StarknetData/Decoded.antt =====
-- The listener's decoder reads back the order data that the tool encodes.
use oif_starknet.Prelude.{
  ℕ, suc, ◌+◌, ◌-◌, ◌*◌, ◌/◌, ◌^◌, ◌≡◌, ◌<◌, ◌≤◌, refl, sym, ap, ◌∙◌, List, [], ◌∷◌, ◌++◌, Option,
  length, take, drop, map, arith, All, leb, true, All-take, All-drop,
}
use oif_starknet.Prelude.Result.{ok}
use oif_starknet.Prelude.Text.{Bytes}
use oif_starknet.Prelude.Hex.{IsByte}
use oif_starknet.Prelude.BigInt.{to_uint32}
use oif_starknet.Config.Networks.{Networks}
use oif_starknet.StarknetUtil.{Felts, KeepsSmall}
use oif_starknet.Listener.Decode.{
  first_word, data_size, decode_resolved_order_from_felts, order_data_word,
}
use oif_starknet.Listener.Decode
use oif_starknet.Listener.Decode.Layout.{OutputFields, OrderFields, FitsOrder, lay_order, order_of}
use oif_starknet.Listener.Decode.OriginData.{
  join, lay_words, origin_data, decode_resolved_order_from_felts-single,
}
use oif_starknet.OpenOrder.StarknetData.{
  StarknetOrderData, data_offset, left_pad, u256_to_bytes32, u32_word, felt_to_bytes32,
  order_data_words, raw_order_data, u128_words, encode_starknet_order_data,
}
use oif_starknet.OpenOrder.StarknetData.Words.{
  IsWord, BigEndian, left_pad-IsWord, u256_to_bytes32-IsWord, u32_word-IsWord, write_words-eq-join,
  twice, twice-eq, join-append, length-join, pair, u128_words-join, map-word_of-pair,
}

module _ {Felt : Type 0} (fs : Felts Felt) where
  felt_to_bytes32-IsByte : BigEndian fs → (f : Felt) → All IsByte (felt_to_bytes32 fs f)
  unfolding felt_to_bytes32
  felt_to_bytes32-IsByte big f =
      let word = big.whole f in
      let size = word.0 in
      let full : leb 32 (length (fs.bytes f)) ≡ true = ground arith in
      rw full
        (All-take IsByte 32 _ (All-drop IsByte (length (fs.bytes f) - 32) (fs.bytes f) word.1))

  -- The words of the order data, each padded to 32 bytes.
  abbrev padded_words : StarknetOrderData Felt → List Bytes
  padded_words od = map (λ w. left_pad w 32) (order_data_words fs od)

  raw_order_data-eq-join :
      (od : StarknetOrderData Felt) → raw_order_data fs od ≡ join (padded_words od)
  unfolding raw_order_data
  raw_order_data-eq-join od = write_words-eq-join [] (order_data_words fs od)

  padded_words-IsWord : BigEndian fs → (od : StarknetOrderData Felt) → All IsWord (padded_words od)
  unfolding order_data_words
  padded_words-IsWord big od = (
    number 32,
    (
      felt od.sender,
      (
        felt od.recipient,
        (
          felt od.input_token,
          (
            felt od.output_token,
            (
              amount od.amount_in,
              (
                amount od.amount_out,
                (
                  felt od.sender_nonce,
                  (
                    number od.origin_domain,
                    (
                      number od.destination_domain,
                      (
                        felt od.destination_settler,
                        (
                          number (to_uint32 od.fill_deadline),
                          (number data_offset, (left_pad-IsWord [] tt, tt)),
                        ),
                      ),
                    ),
                  ),
                ),
              ),
            ),
          ),
        ),
      ),
    ),
  )
    where
      number : (v : ℕ) → IsWord (left_pad (u32_word v) 32)
      number v = left_pad-IsWord (u32_word v) (u32_word-IsWord v).1

      felt : (f : Felt) → IsWord (left_pad (felt_to_bytes32 fs f) 32)
      felt f = left_pad-IsWord (felt_to_bytes32 fs f) (felt_to_bytes32-IsByte big f)

      amount : (n : Option ℕ) → IsWord (left_pad (u256_to_bytes32 n) 32)
      amount n = left_pad-IsWord (u256_to_bytes32 n) (u256_to_bytes32-IsWord n).1

  length-raw_order_data :
      BigEndian fs → (od : StarknetOrderData Felt) → length (raw_order_data fs od) ≡ 448
  unfolding order_data_words
  length-raw_order_data big od =
      ap length (raw_order_data-eq-join od)
      ∙ length-join (padded_words od) (padded_words-IsWord big od)

  -- What is made of the bytes.
  abbrev elements_of : Bytes → List Felt
  elements_of raw =
      let words = u128_words fs ((length raw + 15) / 16) raw in
      fs.uint64_to_felt (length raw) ∷ fs.uint64_to_felt (length words) ∷ words

  length-lay_words : (ws : List Bytes) → length (lay_words (map (pair fs) ws)) ≡ twice (length ws)
  length-lay_words [] = refl
  length-lay_words (w ∷ ws) = ap (λ n. suc (suc n)) (length-lay_words ws)

  elements_of-join :
      (ws : List Bytes)
      → All IsWord ws
      → elements_of (join ws)
        ≡ fs.uint64_to_felt (32 * length ws)
          ∷ fs.uint64_to_felt (twice (length ws))
          ∷ lay_words (map (pair fs) ws)
  elements_of-join ws h =
      let size = length-join ws h in
      let double = twice-eq (length ws) in
      let rounds : (length (join ws) + 15) / 16 ≡ twice (length ws) = omega arith in
      rw (rounds, u128_words-join fs ws h, length-lay_words ws, size) refl

  origin_data-pair :
      (networks : Networks) (big : BigEndian fs) (keeps : KeepsSmall fs) (ws : List Bytes)
      → All IsWord ws
      → origin_data fs networks (map (pair fs) ws)
        ≡ first_word ++ (join (take 11 (drop 1 ws)) ++ (Decode.data_offset ++ data_size))
  origin_data-pair networks big keeps ws h =
      ap (λ t. first_word ++ (join (take 11 (drop 1 t)) ++ (Decode.data_offset ++ data_size)))
        (map-word_of-pair fs networks big keeps ws h)

  origin_data-raw :
      (networks : Networks) (big : BigEndian fs) (keeps : KeepsSmall fs)
      (od : StarknetOrderData Felt)
      → origin_data fs networks (map (pair fs) (padded_words od)) ≡ raw_order_data fs od
  unfolding order_data_words left_pad u32_word
  origin_data-raw networks big keeps od =
      origin_data-pair networks big keeps (padded_words od) (padded_words-IsWord big od)
      ∙ sym (
          ap (λ t. first_word ++ t)
            (join-append (take 11 (drop 1 (padded_words od))) (drop 12 (padded_words od))))
      ∙ sym (raw_order_data-eq-join od)

  encode-eq-lay_words :
      (big : BigEndian fs) (od : StarknetOrderData Felt)
      → encode_starknet_order_data fs od
        ≡ fs.uint64_to_felt 448
          ∷ fs.big_int_to_felt (2 * length (map (pair fs) (padded_words od)))
          ∷ lay_words (map (pair fs) (padded_words od))
  unfolding encode_starknet_order_data order_data_words
  encode-eq-lay_words big od =
      ap elements_of (raw_order_data-eq-join od)
      ∙ elements_of-join (padded_words od) (padded_words-IsWord big od)
      ∙ ap (λ f. fs.uint64_to_felt 448 ∷ f ∷ lay_words (map (pair fs) (padded_words od)))
          (big.same 28 (omega arith))

  enough_words :
      (od : StarknetOrderData Felt)
      → (12 ≤ length (map (pair fs) (padded_words od)))
        × (2 * length (map (pair fs) (padded_words od)) < 2 ^ 64)
  unfolding order_data_words
  enough_words od = (omega arith, omega arith)

  -- An Open event of one output on each side, with the order data that the tool encodes behind the
  -- order's fields, is decoded to that order, and its fill instruction's origin data are the bytes
  -- of the order data, whole. An element has 32 big-endian bytes, and the fields fit their widths.
  pub decode-encode_starknet_order_data :
      (networks : Networks) (big : BigEndian fs) (keeps : KeepsSmall fs) (o : OrderFields Felt)
      (spent received : OutputFields Felt) (od : StarknetOrderData Felt)
      → o.max_spent ≡ spent ∷ []
      → o.min_received ≡ received ∷ []
      → FitsOrder o
      → decode_resolved_order_from_felts fs networks
          (lay_order fs networks o ++ encode_starknet_order_data fs od)
        ≡ ok (order_of fs networks o (raw_order_data fs od))
  decode-encode_starknet_order_data networks big keeps o spent received od one_spent one_received
        fits =
      let words = map (pair fs) (padded_words od) in
      let decoded =
        decode_resolved_order_from_felts-single fs networks keeps o spent received
          (fs.uint64_to_felt 448) words one_spent one_received fits (enough_words od).0
          (enough_words od).1 in
      cc (encode-eq-lay_words big od, origin_data-raw networks big keeps od, decoded)
