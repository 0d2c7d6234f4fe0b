-- ===== src/Listener/Decode/OriginData.antt =====
-- The origin data that the decoder builds.
use oif_starknet.Prelude.{
  ℕ, zero, suc, ◌+◌, ◌*◌, ◌^◌, ◌≡◌, ◌<◌, ◌≤◌, refl, true, List, [], ◌∷◌, ◌++◌, some, length,
  get_elem?, take, drop, map, arith, length-drop, length-map, ltb,
}
use oif_starknet.Prelude.Result.{ok}
use oif_starknet.Prelude.Text.{Bytes}
use oif_starknet.Prelude.BigInt.{to_uint64}
use oif_starknet.Config.Networks.{Networks}
use oif_starknet.StarknetUtil.{Felts, KeepsSmall}
use oif_starknet.Listener.Decode.{
  first_word, data_offset, data_size, append_fields, origin_data_of, order_data_word,
  order_data_fields, origin_data_at, decode_resolved_order_from_felts,
}
use oif_starknet.Listener.Decode.Layout.{OrderFields, OutputFields, FitsOrder, lay_order, order_of}
use oif_starknet.Listener.Decode.RoundTrip.{decode_resolved_order_from_felts-lay_order}

abbrev pub join : List Bytes → Bytes
join [] = []
join (f ∷ fields) = f ++ join fields

-- The words of the origin data, as pairs of elements.
abbrev pub lay_words : {Felt : Type 0} → List (Felt × Felt) → List Felt
lay_words [] = []
lay_words ((low, high) ∷ ws) = low ∷ high ∷ lay_words ws

append_fields-eq-join :
    (n : ℕ) (fields : List Bytes)
    → n ≤ length fields
    → append_fields n fields ≡ ok (join (take n fields))
unfolding append_fields
append_fields-eq-join zero fields h = refl
append_fields-eq-join (suc n) [] h = absurd (omega arith)
append_fields-eq-join (suc n) (f ∷ fields) h =
    rw (append_fields-eq-join n fields (omega arith)) refl

module _ {Felt : Type 0} (fs : Felts Felt) (networks : Networks) where
  unfoldable pub word_of : Felt × Felt → Bytes
  word_of w = order_data_word fs networks w.0 w.1

  order_data_fields-lay_words :
      (ws : List (Felt × Felt)) (i n : ℕ)
      → n ≡ i + 2 * length ws
      → order_data_fields fs networks i n (lay_words ws) ≡ map word_of ws
  unfolding order_data_fields word_of
  order_data_fields-lay_words [] i n h = refl
  order_data_fields-lay_words ((low, high) ∷ ws) i n h =
      let below : ltb i n ≡ true = ground arith in
      rw (below, order_data_fields-lay_words ws (i + 2) n (omega arith)) refl

  -- The origin data of the words behind an order.
  abbrev pub origin_data : List (Felt × Felt) → Bytes
  origin_data ws =
      first_word ++ (join (take 11 (drop 1 (map word_of ws))) ++ (data_offset ++ data_size))

  origin_data_at-lay_words :
      (keeps : KeepsSmall fs) (size : Felt) (d : List Felt) (ws : List (Felt × Felt))
      → get_elem? d 21 ≡ some size
      → get_elem? d 22 ≡ some (fs.big_int_to_felt (2 * length ws))
      → drop 23 d ≡ lay_words ws
      → 12 ≤ length ws
      → 2 * length ws < 2 ^ 64
      → origin_data_at fs networks (get_elem? d 21) (get_elem? d 22) d ≡ ok (origin_data ws)
  unfolding origin_data_at origin_data_of
  origin_data_at-lay_words keeps size d ws h21 h22 h23 enough fits =
      rw
        (
          h21,
          h22,
          h23,
          order_data_fields-lay_words ws 0
              (to_uint64 (fs.felt_to_big_int (fs.big_int_to_felt (2 * length ws))))
              (omega (arith, keeps (2 * length ws) (omega arith))),
          append_fields-eq-join 11 (drop 1 (map word_of ws))
              (omega (arith, length-drop 1 (map word_of ws), length-map word_of ws)),
        )
        refl

  -- An order with one output on each side and one fill instruction, laid out in an event's data
  -- with its origin data behind it, is read back whole: the origin data are the first word, the
  -- second to the twelfth word that the event has, and the offset and the size of no further data.
  pub decode_resolved_order_from_felts-single :
      (keeps : KeepsSmall fs) (o : OrderFields Felt) (spent received : OutputFields Felt)
      (size : Felt) (ws : List (Felt × Felt))
      → o.max_spent ≡ spent ∷ []
      → o.min_received ≡ received ∷ []
      → FitsOrder o
      → 12 ≤ length ws
      → 2 * length ws < 2 ^ 64
      → decode_resolved_order_from_felts fs networks
          (lay_order fs networks o ++ (size ∷ fs.big_int_to_felt (2 * length ws) ∷ lay_words ws))
        ≡ ok (order_of fs networks o (origin_data ws))
  decode_resolved_order_from_felts-single keeps o spent received size ws one_spent one_received fits
        enough short =
      decode_resolved_order_from_felts-lay_order fs networks keeps (origin_data ws) o _ fits (
        origin_data_at-lay_words keeps size _ ws (rw (one_spent, one_received) refl)
          (rw (one_spent, one_received) refl) (rw (one_spent, one_received) refl) enough short)
