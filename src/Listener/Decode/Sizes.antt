-- ===== src/Listener/Decode/Sizes.antt =====
-- The sizes of what the decoder builds.
use oif_starknet.Prelude.{
  ℕ, zero, suc, ◌+◌, ◌-◌, ◌*◌, ◌≡◌, ◌≤◌, refl, false, List, [], ◌∷◌, ◌++◌, Option, none, some,
  length, get_elem?, All-drop, drop, replicate, arith, All, length-append, length-drop,
  length-replicate, ltb, if_cases,
}
use oif_starknet.Prelude.Result.{Result, ok, err, panic, Ensures}
use oif_starknet.Prelude.Text.{Bytes}
use oif_starknet.Prelude.BigInt.{big_bytes}
use oif_starknet.Types.{FillInstruction, ResolvedCrossChainOrder}
use oif_starknet.Config.Networks.{Networks}
use oif_starknet.StarknetUtil.{Felts}
use oif_starknet.Listener.Decode.{
  Reader, after_read, read_pure, ◌>>=◌, read_many, data_offset, data_size, append_fields,
  origin_data_of, order_data_word, order_data_fields, origin_data_at, order_id_word, keep_index,
  parse_origin_data, read_order_id, read_fill_instruction, read_fill_instructions,
  read_resolved_order, value_read, decode_resolved_order_from_felts,
}

-- Every value that a reader gives has the property.
abbrev pub Yields : {Felt A : Type 0} → (A → Type 0) → Reader Felt A → Type 0
Yields P m = (d : _) (i : ℕ) → Ensures (λ r. P r.0) (m d i)

module _ {Felt A B : Type 0} where
  Yields-bind :
      (P : A → Type 0) (Q : B → Type 0) (m : Reader Felt A) (f : A → Reader Felt B)
      → Yields P m
      → ((a : A) → P a → Yields Q (f a))
      → Yields Q (m >>= f)
  unfolding ◌>>=◌ after_read
  Yields-bind P Q m f hm hf d i = next (m d i) (hm d i)
    where
      next : (r : Result (A × ℕ)) → Ensures (λ r. P r.0) r → Ensures (λ r. Q r.0) (after_read r d f)
      next (ok (a, j)) p = hf a p d j
      next (err e) p = tt
      next (panic x) p = tt

  -- A step whose value does not matter.
  Yields-after :
      (Q : B → Type 0) (m : Reader Felt A) (f : A → Reader Felt B)
      → ((a : A) → Yields Q (f a))
      → Yields Q (m >>= f)
  unfolding ◌>>=◌ after_read
  Yields-after Q m f hf d i = next (m d i)
    where
      next : (r : Result (A × ℕ)) → Ensures (λ r. Q r.0) (after_read r d f)
      next (ok (a, j)) = hf a d j
      next (err e) = tt
      next (panic x) = tt

Yields-read_many :
    {Felt A : Type 0} (P : A → Type 0) (n : ℕ) (entry : Reader Felt A)
    → Yields P entry
    → Yields (All P) (read_many n entry)
unfolding read_many read_pure
Yields-read_many P zero entry h = λ d i. tt
Yields-read_many P (suc n) entry h =
    Yields-bind P _ entry _ h
      λ a pa. Yields-bind (All P) _ _ _ (Yields-read_many P n entry h) λ rest ps d i. (pa, ps)

-- The identifier takes 32 bytes.
order_id_word-length : (b : Bytes) → Ensures (λ w. length w ≡ 32) (order_id_word b)
unfolding order_id_word
order_id_word-length b =
    if_cases (Ensures λ w. length w ≡ 32) (ltb 32 (length b)) _ _ (λ t. tt) filled
  where
    filled : ltb 32 (length b) ≡ false → length (replicate (32 - length b) 0 ++ b) ≡ 32
    filled t =
        let zeros : Bytes = replicate (32 - length b) 0 in
        let size : length zeros ≡ 32 - length b = length-replicate (32 - length b) 0 in
        let short : length b ≤ 32 = ground arith in omega (arith, length-append zeros b, size)

-- Fields of 32 bytes give 32 bytes each.
abbrev Word : Bytes → Type 0
Word f = length f ≡ 32

append_fields-length :
    (n : ℕ) (fields : List Bytes)
    → All Word fields
    → Ensures (λ b. length b ≡ 32 * n) (append_fields n fields)
unfolding append_fields
append_fields-length zero fields h = refl
append_fields-length (suc n) [] h = tt
append_fields-length (suc n) (f ∷ fields) h =
    more (append_fields n fields) (append_fields-length n fields h.1)
  where
    more :
        (r : Result Bytes)
        → Ensures (λ b. length b ≡ 32 * n) r
        → Ensures
            (λ b. length b ≡ 32 * suc n)
            (elim r [ ok rest ↦ ok (f ++ rest) | err e ↦ err e | panic p ↦ panic p ])
    more (ok rest) e = omega (arith, e, h.0, length-append f rest)
    more (err e) t = tt
    more (panic p) t = tt

origin_data_of-length :
    (r : Result Bytes)
    → Ensures (λ b. length b ≡ 32 * 11) r
    → Ensures (λ b. length b ≡ 448) (origin_data_of r)
unfolding origin_data_of
origin_data_of-length (ok fields) h =
    omega (arith, h, length-append fields (data_offset ++ data_size))
origin_data_of-length (err e) h = tt
origin_data_of-length (panic p) h = tt

module _ {Felt : Type 0} (fs : Felts Felt) (networks : Networks)
    (whole : (f : Felt) → length (fs.bytes f) ≡ 32) where
  order_data_fields-Word :
      (i n : ℕ) (d : List Felt) → All Word (order_data_fields fs networks i n d)
  unfolding order_data_fields order_data_word
  order_data_fields-Word i n [] = tt
  order_data_fields-Word i n (x ∷ []) = tt
  order_data_fields-Word i n (low ∷ high ∷ rest) =
      if_cases (All Word) (ltb i n) _ _ (λ t. (word, order_data_fields-Word (i + 2) n rest))
        (λ t. tt)
    where
      word : length (drop 16 (fs.bytes low) ++ drop 16 (fs.bytes high)) ≡ 32
      word = omega (
        arith,
        length-append (drop 16 (fs.bytes low)) (drop 16 (fs.bytes high)),
        length-drop 16 (fs.bytes low),
        length-drop 16 (fs.bytes high),
        whole low,
        whole high,
      )

  keep_index-Yields :
      (P : Bytes → Type 0) (r : Result Bytes) (i : ℕ)
      → Ensures P r
      → Ensures (λ r. P r.0) (keep_index fs networks r i)
  unfolding keep_index
  keep_index-Yields P (ok b) i h = h
  keep_index-Yields P (err e) i h = tt
  keep_index-Yields P (panic p) i h = tt

  origin_data_at-length :
      (size n : Option Felt) (d : List Felt)
      → Ensures (λ b. length b ≡ 448) (origin_data_at fs networks size n d)
  unfolding origin_data_at origin_data_of
  origin_data_at-length none n d = tt
  origin_data_at-length (some size) none d = tt
  origin_data_at-length (some size) (some n) d =
      origin_data_of-length _
        (append_fields-length 11 _ (All-drop Word 1 _ (order_data_fields-Word 0 _ (drop 23 d))))

  parse_origin_data-Yields : Yields (λ b. length b ≡ 448) (parse_origin_data fs networks)
  unfolding parse_origin_data
  parse_origin_data-Yields d i =
      keep_index-Yields (λ b. length b ≡ 448)
        (origin_data_at fs networks (get_elem? d 21) (get_elem? d 22) d) i
        (origin_data_at-length (get_elem? d 21) (get_elem? d 22) d)

  read_order_id-Yields : Yields (λ b. length b ≡ 32) (read_order_id fs networks)
  unfolding read_order_id
  read_order_id-Yields = Yields-after _ _ _ λ n d i.
      keep_index-Yields (λ b. length b ≡ 32) (order_id_word (big_bytes n)) i
        (order_id_word-length (big_bytes n))

  abbrev pub HasSize : FillInstruction → Type 0
  HasSize instruction = length instruction.origin_data ≡ 448

  read_fill_instruction-Yields : Yields HasSize (read_fill_instruction fs networks)
  unfolding read_fill_instruction read_pure
  read_fill_instruction-Yields = Yields-after _ _ _ λ domain.
      Yields-after _ _ _ λ settler. Yields-bind _ HasSize _ _ parse_origin_data-Yields λ b h d i. h

  read_fill_instructions-Yields : Yields (All HasSize) (read_fill_instructions fs networks)
  unfolding read_fill_instructions
  read_fill_instructions-Yields =
      Yields-after _ _ _ λ n. Yields-read_many HasSize n _ read_fill_instruction-Yields

  abbrev pub Sized : ResolvedCrossChainOrder → Type 0
  Sized o = (length o.order_id ≡ 32) × All HasSize o.fill_instructions

  read_resolved_order-Yields : Yields Sized (read_resolved_order fs networks)
  unfolding read_resolved_order read_pure
  read_resolved_order-Yields = Yields-after Sized _ _ λ user. Yields-after Sized _ _ λ origin.
      Yields-after Sized _ _ λ open_deadline. Yields-after Sized _ _ λ fill_deadline.
        Yields-bind _ Sized _ _ read_order_id-Yields λ id h. Yields-after Sized _ _ λ spent.
          Yields-after Sized _ _ λ received.
            Yields-bind _ Sized _ _ read_fill_instructions-Yields λ instructions k d i. (h, k)

  -- Where every field element has 32 bytes, whatever the event's data are: if the decoder gives an
  -- order, its identifier has 32 bytes and the origin data of each of its fill instructions have
  -- 448.
  pub decode_resolved_order_from_felts-Sized :
      (d : List Felt) → Ensures Sized (decode_resolved_order_from_felts fs networks d)
  unfolding decode_resolved_order_from_felts
  decode_resolved_order_from_felts-Sized d = of_value _ (read_resolved_order-Yields d 0)
    where
      of_value :
          (r : Result (ResolvedCrossChainOrder × ℕ))
          → Ensures (λ r. Sized r.0) r
          → Ensures Sized (value_read fs networks r)
      of_value (ok (o, i)) h = h
      of_value (err e) h = tt
      of_value (panic p) h = tt
