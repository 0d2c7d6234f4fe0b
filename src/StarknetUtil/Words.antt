-- ===== src/StarknetUtil/Words.antt =====
-- Numbers, order identifiers and bytes are carried to field elements without loss.
use native.Mathlib.Decide.{dec_lt}
use mathlib.Core.List.{append-nil, append_assoc}
use Prim.Native.Nat.{bit_and}
use oif_starknet.Prelude.{
  ℕ, zero, suc, ◌+◌, ◌-◌, ◌*◌, ◌/◌, ◌%◌, ◌^◌, ◌≡◌, ◌≤◌, ◌<◌, refl, ap, sym, ◌∙◌, List, [], ◌∷◌,
  ◌++◌, some, arith, ltb, Bool-cases, inl, inr, length, take, drop, replicate, length-append,
  length-take, length-drop, length-replicate, take-append-drop, All, take-of_length, drop-of_length,
  All-append, All-replicate, All-drop, All-take, map,
}
use oif_starknet.Prelude.Result.{ok}
use oif_starknet.Prelude.Bits.{bit_and-mask, bit_or-fields}
use oif_starknet.Prelude.Text.{Bytes, GoString}
use oif_starknet.Prelude.Hex.{IsByte}
use oif_starknet.Prelude.BigInt.{
  set_bytes, set_bytes_from, set_bytes_from-eq-set_bytes, set_bytes_from-append, big_bytes,
  set_bytes-append, set_bytes-lt, set_bytes-big_bytes, big_bytes-IsByte, length-big_bytes,
  set_bytes-zeros,
}
use oif_starknet.StarknetUtil.{
  Felts, KeepsSmall, pad_bytes32, pad_chunk, split_order_id, order_number_felts,
  convert_solidity_order_id_for_starknet, words_from, bytes_to_u128_felts, split_u256, or_u256,
  add_u256,
}

module _ {Felt : Type 0} (fs : Felts Felt) (keeps : KeepsSmall fs) where
  -- A 256-bit amount is split into two elements from which both readers of two-element answers
  -- get it back: the one that joins by `|` and the one that joins by `+`.
  pub u256_round_trip :
      (amount : ℕ)
      → amount < 2 ^ 256
      → (or_u256 fs (split_u256 fs amount).0 (split_u256 fs amount).1 ≡ amount)
        × (add_u256 fs (split_u256 fs amount).0 (split_u256 fs amount).1 ≡ amount)
  unfolding or_u256 add_u256 split_u256
  u256_round_trip amount h =
      let low = keeps (bit_and amount (2 ^ 128 - 1)) (rw (bit_and-mask 128 amount) (omega arith)) in
      let high = keeps (amount / 2 ^ 128) (omega arith) in
      let mask = bit_and-mask 128 amount in
      (
        rw (low, high, mask)
            (bit_or-fields 128 (amount / 2 ^ 128) (amount % 2 ^ 128) (omega arith) ∙ omega arith),
        rw (low, high, mask) (omega arith),
      )

abbrev pub Full : Bytes → Type 0
Full b = length b ≡ 32

-- Bytes in front of the last 16, and the last 16, of a full 32 bytes.
halves :
    (b : Bytes) (v : ℕ)
    → length b ≡ 32
    → All IsByte b
    → set_bytes b ≡ v
    → (set_bytes (take 16 b) ≡ v / 2 ^ 128) × (set_bytes (take 16 (drop 16 b)) ≡ v % 2 ^ 128)
halves b v len bytes e =
    let back : take 16 (drop 16 b) ≡ drop 16 b =
      take-of_length 16 (drop 16 b) (omega (arith, length-drop 16 b)) in
    let size : length (drop 16 b) ≡ 16 = omega (arith, length-drop 16 b) in
    let small : set_bytes (drop 16 b) < 256 ^ 16 =
      rw size at (set_bytes-lt (drop 16 b) (All-drop IsByte 16 b bytes)) in
    let sum : set_bytes (take 16 b) * 256 ^ 16 + set_bytes (drop 16 b) ≡ v =
      rw (size, take-append-drop 16 b, e) at (sym (set_bytes-append (take 16 b) (drop 16 b))) in
    (omega arith, rw back (omega arith))

pub pad_bytes32_lem :
    (v : ℕ)
    → v < 2 ^ 256
    → (length (pad_bytes32 (big_bytes v)) ≡ 32)
      × All IsByte (pad_bytes32 (big_bytes v))
      × (set_bytes (pad_bytes32 (big_bytes v)) ≡ v)
unfolding pad_bytes32
pad_bytes32_lem v h = elim (Bool-cases (ltb (length b) 32)) [
  | inl e ↦ rw e (
    omega (
      arith,
      length-append (replicate (32 - length b) 0) b,
      length-replicate {A = ℕ} (32 - length b) 0,
      short,
    ),
    All-append IsByte (replicate (32 - length b) 0) b
        (All-replicate IsByte (32 - length b) 0 (omega arith)) (big_bytes-IsByte v),
    set_bytes-zeros (32 - length b) b ∙ set_bytes-big_bytes v,
  )
  | inr e ↦ rw e (ground (arith, short), big_bytes-IsByte v, set_bytes-big_bytes v)
]
  where
    b : Bytes
    b = big_bytes v

    short : length (big_bytes v) ≤ 32
    short = length-big_bytes 32 v h

module _ {Felt : Type 0} (fs : Felts Felt) (keeps : KeepsSmall fs) where
  -- The field elements of an order identifier that reads as a number below 2^256 are the number's
  -- low and high 128 bits, whatever number of leading zero bytes it has.
  pub convert_solidity_order_id_lem :
      (order_id : GoString) (v : ℕ)
      → fs.hex_to_bn order_id ≡ some v
      → v < 2 ^ 256
      → (low : Felt) × (high : Felt) × (convert_solidity_order_id_for_starknet fs order_id
          ≡ ok (low, high))
        × (fs.felt_to_big_int low ≡ v % 2 ^ 128)
        × (fs.felt_to_big_int high ≡ v / 2 ^ 128)
  unfolding convert_solidity_order_id_for_starknet split_order_id
  convert_solidity_order_id_lem order_id v e h =
      let b = pad_bytes32 (big_bytes v) in
      let (len, bytes, value) = pad_bytes32_lem v h in
      let (left, right) = halves b v len bytes value in
      (
        fs.big_int_to_felt (set_bytes (take 16 (drop 16 b))),
        fs.big_int_to_felt (set_bytes (take 16 b)),
        rw (e, order_number_felts),
        keeps _ (omega arith) ∙ right,
        keeps _ (omega arith) ∙ left,
      )

-- The number whose digits in base 2^128 are the given words, read on from `n`.
unfoldable pub join_words : ℕ → List ℕ → ℕ
join_words n [] = n
join_words n (w ∷ ws) = join_words (n * 2 ^ 128 + w) ws

-- The zero bytes that fill the last word.
unfoldable pub filler : Bytes → Bytes
filler b = replicate ((16 - length b % 16) % 16) 0

length-filler : (b : Bytes) → length (filler b) ≡ (16 - length b % 16) % 16
unfolding filler
length-filler b = length-replicate {A = ℕ} ((16 - length b % 16) % 16) 0

filler-IsByte : (b : Bytes) → All IsByte (filler b)
unfolding filler
filler-IsByte b = All-replicate IsByte ((16 - length b % 16) % 16) 0 (omega arith)

-- Behind less than 16 bytes nothing is left.
nothing_left :
    (n : ℕ) (b : Bytes) → length b < 16 → set_bytes_from n (drop 16 b ++ filler (drop 16 b)) ≡ n
unfolding filler set_bytes_from
nothing_left n b h = rw (drop-of_length 16 b (omega arith))

chunk_full : (b : Bytes) → 16 ≤ length b → pad_chunk (take 16 b) ≡ take 16 b
unfolding pad_chunk
chunk_full b h =
    let size : length (take 16 b) ≡ 16 = omega (arith, length-take 16 b) in
    rw size (append-nil (take 16 b))

filler-drop : (b : Bytes) → 16 ≤ length b → filler (drop 16 b) ≡ filler b
unfolding filler
filler-drop b h = ap (λ n. replicate n 0) (omega (arith, length-drop 16 b))

chunk_short : (b : Bytes) → 0 < length b → length b < 16 → pad_chunk (take 16 b) ≡ b ++ filler b
unfolding pad_chunk filler
chunk_short b h k =
    rw (take-of_length 16 b (omega arith)) (ap (λ n. b ++ replicate n 0) (omega arith))

module _ {Felt : Type 0} (fs : Felts Felt) (keeps : KeepsSmall fs) where
  chunk_value :
      (n : ℕ) (c : Bytes)
      → length c ≡ 16
      → All IsByte c
      → n * 2 ^ 128 + fs.felt_to_big_int (fs.big_int_to_felt (set_bytes c)) ≡ set_bytes_from n c
  chunk_value n c len bytes =
      let small : set_bytes c < 256 ^ 16 = rw len at (set_bytes-lt c bytes) in
      let kept = keeps (set_bytes c) (omega arith) in
      rw kept (sym (rw len at (set_bytes_from-eq-set_bytes n c)))

  -- One word more, given the value of the words behind it.
  next_word :
      (n : ℕ) (c : Bytes) (rest : List Felt)
      → 0 < length c
      → All IsByte c
      → join_words (set_bytes_from n (pad_chunk (take 16 c))) (map fs.felt_to_big_int rest)
        ≡ set_bytes_from
            (set_bytes_from n (pad_chunk (take 16 c)))
            (drop 16 c ++ filler (drop 16 c))
      → join_words
          (n * 2 ^ 128
            + fs.felt_to_big_int (fs.big_int_to_felt (set_bytes (pad_chunk (take 16 c)))))
          (map fs.felt_to_big_int rest)
        ≡ set_bytes_from n (c ++ filler c)
  next_word n c rest pos bytes ih = elim (dec_lt (length c) 16) [
    | yes short ↦
        let whole = chunk_short c pos short in
        let value =
          chunk_value n (c ++ filler c) (omega (arith, length-append c (filler c), length-filler c))
            (All-append IsByte c (filler c) bytes (filler-IsByte c)) in
        rw whole (rw value (rw whole at ih ∙ nothing_left _ c short))
    | no long ↦
        let full = chunk_full c (omega arith) in
        let value =
          chunk_value n (take 16 c) (omega (arith, length-take 16 c))
            (All-take IsByte 16 c bytes) in
        rw full (rw value (rw full at ih ∙ front (omega arith)))
  ]
    where
      front :
          16 ≤ length c
          → set_bytes_from (set_bytes_from n (take 16 c)) (drop 16 c ++ filler (drop 16 c))
            ≡ set_bytes_from n (c ++ filler c)
      front long = rw (filler-drop c long) (
          sym (set_bytes_from-append n (take 16 c) (drop 16 c ++ filler c))
          ∙ ap (set_bytes_from n) (
              sym (append_assoc (take 16 c) (drop 16 c) (filler c))
              ∙ ap (λ t. t ++ filler c) (take-append-drop 16 c)))

  words_from_value :
      (fuel n : ℕ) (b : Bytes)
      → length b ≤ fuel
      → All IsByte b
      → join_words n (map fs.felt_to_big_int (words_from fs fuel b))
        ≡ set_bytes_from n (b ++ filler b)
  unfolding words_from join_words
  words_from_value zero n [] h bytes = unfold filler set_bytes_from in refl
  words_from_value zero n (x ∷ b) h bytes = absurd (omega arith)
  words_from_value (suc fuel) n [] h bytes = unfold filler set_bytes_from in refl
  words_from_value (suc fuel) n (x ∷ b) h bytes =
      next_word n (x ∷ b) (words_from fs fuel (drop 16 (x ∷ b))) (omega arith) bytes (
        words_from_value fuel (set_bytes_from n (pad_chunk (take 16 (x ∷ b)))) (drop 16 (x ∷ b))
          (omega (arith, length-drop 16 (x ∷ b))) (All-drop IsByte 16 (x ∷ b) bytes))

  -- The words of a byte string, read as the digits of one number in base 2^128, are the number
  -- whose bytes are the string and the zero bytes that fill the last word.
  pub bytes_to_u128_felts_value :
      (b : Bytes)
      → All IsByte b
      → join_words 0 (map fs.felt_to_big_int (bytes_to_u128_felts fs b)) ≡ set_bytes (b ++ filler b)
  unfolding bytes_to_u128_felts set_bytes
  bytes_to_u128_felts_value b bytes = words_from_value (length b) 0 b (omega arith) bytes

length-words_from :
    {Felt : Type 0} (fs : Felts Felt) (fuel : ℕ) (b : Bytes)
    → length b ≤ fuel
    → length (words_from fs fuel b) ≡ (length b + 15) / 16
unfolding words_from
length-words_from fs zero [] h = omega arith
length-words_from fs zero (x ∷ b) h = absurd (omega arith)
length-words_from fs (suc fuel) [] h = omega arith
length-words_from fs (suc fuel) (x ∷ b) h = omega (
  arith,
  length-drop 16 (x ∷ b),
  length-words_from fs fuel (drop 16 (x ∷ b)) (omega (arith, length-drop 16 (x ∷ b))),
)

-- There is one word for each 16 bytes, the last of which may be short.
pub length-bytes_to_u128_felts :
    {Felt : Type 0} (fs : Felts Felt) (b : Bytes)
    → length (bytes_to_u128_felts fs b) ≡ (length b + 15) / 16
unfolding bytes_to_u128_felts
length-bytes_to_u128_felts fs b = length-words_from fs (length b) b (omega arith)
