-- ===== src/Listener/Decode/RoundTrip.antt =====
-- The decoder reads a laid-out order back.
use oif_starknet.Prelude.{
  ℕ, ◌+◌, ◌-◌, ◌^◌, ◌≡◌, ◌<◌, ◌≤◌, refl, ap, false, List, [], ◌∷◌, ◌++◌, length, get_elem?,
  replicate, arith, ltb,
}
use oif_starknet.Prelude.Result.{Result, ok}
use oif_starknet.Prelude.Text.{Bytes}
use oif_starknet.Prelude.BigInt.{big_bytes, length-big_bytes}
use oif_starknet.Config.Networks.{Networks}
use oif_starknet.StarknetUtil.{Felts, KeepsSmall}
use oif_starknet.Listener.Decode.{
  read_pure, read_many, order_id_word, origin_data_at, keep_index, parse_origin_data,
  read_fill_instruction, read_fill_instructions, read_order_id, read_resolved_order, value_read,
  decode_resolved_order_from_felts,
}
use oif_starknet.Listener.Decode.Reads.{
  Reads, Reads-read_pure, Reads-bind, Reads-read_address, Reads-read_u32, Reads-read_u64,
  Reads-read_u256,
}
use oif_starknet.Listener.Decode.Layout.{
  OrderFields, FitsOrder, lay_u256, lay_order, instruction_of, order_of, read_outputs-Reads,
}

module _ {Felt : Type 0} (fs : Felts Felt) (networks : Networks) (keeps : KeepsSmall fs)
    (b : Bytes) where
  -- The words at the fixed positions of the origin data give these bytes.
  abbrev pub HasOriginData : List Felt → Type 0
  HasOriginData d = origin_data_at fs networks (get_elem? d 21) (get_elem? d 22) d ≡ ok b

  parse_origin_data-Reads : Reads HasOriginData (parse_origin_data fs networks) [] b
  unfolding parse_origin_data keep_index
  parse_origin_data-Reads = record { at = λ front back k. rw k (ap (λ n. ok (b, n)) (omega arith)) }

  read_order_id-Reads :
      (n : ℕ)
      → n < 2 ^ 256
      → Reads HasOriginData
          (read_order_id fs networks)
          (lay_u256 fs networks n)
          (replicate (32 - length (big_bytes n)) 0 ++ big_bytes n)
  unfolding read_order_id order_id_word keep_index
  read_order_id-Reads n h =
      Reads-bind HasOriginData _ _ (lay_u256 fs networks n) [] n _
        (Reads-read_u256 HasOriginData fs networks keeps n h)
        (record { at = λ front back k. rw short (same_end (length front)) })
    where
      same_end :
          (i : ℕ)
          → Path
              (Result (Bytes × ℕ))
              (ok (replicate (32 - length (big_bytes n)) 0 ++ big_bytes n, i))
              (ok (replicate (32 - length (big_bytes n)) 0 ++ big_bytes n, i + 0))
      same_end i = let e : i ≡ i + 0 = omega arith in ap (λ j. ok (_, j)) e

      at_most_32 : (m : ℕ) → m ≤ 32 → ltb 32 m ≡ false
      at_most_32 m q = ground arith

      short : ltb 32 (length (big_bytes n)) ≡ false
      short = at_most_32 (length (big_bytes n)) (length-big_bytes 32 n h)

  read_fill_instruction-Reads :
      (o : OrderFields Felt)
      → o.destination_domain < 2 ^ 32
      → Reads HasOriginData
          (read_fill_instruction fs networks)
          ((fs.big_int_to_felt o.destination_domain ∷ []) ++ (o.destination_settler ∷ []))
          (instruction_of fs networks o b)
  unfolding read_fill_instruction
  read_fill_instruction-Reads o h =
      Reads-bind HasOriginData _ _ _ _ _ _
        (Reads-read_u32 HasOriginData fs networks keeps o.destination_domain h)
        (Reads-bind HasOriginData _ _ (o.destination_settler ∷ []) [] _ _
          (Reads-read_address HasOriginData fs networks o.destination_settler)
          (Reads-bind HasOriginData _ _ [] [] b _ parse_origin_data-Reads
            (Reads-read_pure HasOriginData _)))

  read_fill_instructions-Reads :
      (o : OrderFields Felt)
      → o.destination_domain < 2 ^ 32
      → Reads HasOriginData
          (read_fill_instructions fs networks)
          ((fs.big_int_to_felt 1 ∷ [])
            ++ ((fs.big_int_to_felt o.destination_domain ∷ []) ++ (o.destination_settler ∷ [])))
          (instruction_of fs networks o b ∷ [])
  unfolding read_fill_instructions read_many
  read_fill_instructions-Reads o h =
      Reads-bind HasOriginData _ _ _ _ 1 _
        (Reads-read_u64 HasOriginData fs networks keeps 1 (omega arith))
        (Reads-bind HasOriginData _ _ _ [] _ _ (read_fill_instruction-Reads o h) (
          Reads-bind HasOriginData _ (λ rest. read_pure (instruction_of fs networks o b ∷ rest)) []
            [] [] _ (Reads-read_pure HasOriginData []) (Reads-read_pure HasOriginData _)))

  read_resolved_order-Reads :
      (o : OrderFields Felt)
      → FitsOrder o
      → Reads HasOriginData
          (read_resolved_order fs networks)
          (lay_order fs networks o)
          (order_of fs networks o b)
  unfolding read_resolved_order
  read_resolved_order-Reads o (h1, h2, h3, h4, s1, s2, r1, r2, h5) =
      Reads-bind HasOriginData _ _ _ _ _ _ (Reads-read_address HasOriginData fs networks o.user) (
        Reads-bind HasOriginData _ _ _ _ _ _
          (Reads-read_u32 HasOriginData fs networks keeps o.origin_domain h1)
          (Reads-bind HasOriginData _ _ _ _ _ _
            (Reads-read_u64 HasOriginData fs networks keeps o.open_deadline h2)
            (Reads-bind HasOriginData _ _ _ _ _ _
              (Reads-read_u64 HasOriginData fs networks keeps o.fill_deadline h3)
              (Reads-bind HasOriginData _ _ _ _ _ _ (read_order_id-Reads o.order_id h4) (
                Reads-bind HasOriginData _ _ _ _ _ _
                  (read_outputs-Reads fs networks keeps HasOriginData o.max_spent s1 s2)
                  (Reads-bind HasOriginData _ _ _ _ _ _
                    (read_outputs-Reads fs networks keeps HasOriginData o.min_received r1 r2)
                    (Reads-bind HasOriginData _ _ _ [] _ _ (read_fill_instructions-Reads o h5)
                      (Reads-read_pure HasOriginData _))))))))

  -- Whatever the numbers of its outputs, an order with one fill instruction that is laid out in an
  -- event's data is read back: the addresses as text, the amounts and the identifier as they were,
  -- the chains for the domains, and the low 32 bits of the deadlines. The origin data are what the
  -- decoder makes of the elements at its fixed positions, which only for one output on each side
  -- are those behind the laid-out part.
  pub decode_resolved_order_from_felts-lay_order :
      (o : OrderFields Felt) (back : List Felt)
      → FitsOrder o
      → HasOriginData (lay_order fs networks o ++ back)
      → decode_resolved_order_from_felts fs networks (lay_order fs networks o ++ back)
        ≡ ok (order_of fs networks o b)
  unfolding decode_resolved_order_from_felts value_read
  decode_resolved_order_from_felts-lay_order o back fits k =
      rw ((read_resolved_order-Reads o fits).at [] back k) refl
