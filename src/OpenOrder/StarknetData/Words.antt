-- ===== src/OpenOrder/StarknetData/Words.antt =====
-- The 32-byte words of the order data, and their halves as field elements.
use oif_starknet.Prelude.{
  ℕ, zero, suc, ◌-◌, ◌*◌, ◌^◌, ◌≡◌, ◌<◌, refl, sym, ap, ◌∙◌, List, [], ◌∷◌, ◌++◌, Option, none,
  some, length, take, drop, replicate, map, arith, All, length-append, length-drop, length-take,
  length-replicate, leb, ltb, false, if_cases, tests, take-append_self, drop-append_self,
  take-append-drop, All-append, All-take, All-drop, All-replicate,
}
use mathlib.Core.List.{append_assoc, append-nil}
use oif_starknet.Prelude.Text.{Bytes}
use oif_starknet.Prelude.Hex.{IsByte}
use oif_starknet.Prelude.BigInt.{
  set_bytes, big_bytes, big_bytes-IsByte, set_bytes-lt, set_bytes-injective, set_bytes-zeros,
}
use oif_starknet.Config.Networks.{Networks}
use oif_starknet.StarknetUtil.{Felts, KeepsSmall}
use oif_starknet.Listener.Decode.{order_data_word}
use oif_starknet.Listener.Decode.OriginData.{join, lay_words, word_of}
use oif_starknet.OpenOrder.StarknetData.{
  left_pad, u256_to_bytes32, u32_word, write_word, write_words, next_chunk, u128_words,
}

-- A word of 32 bytes.
abbrev pub IsWord : Bytes → Type 0
IsWord w = (length w ≡ 32) × All IsByte w

-- Documented: `Felt.Bytes` are the 32 big-endian bytes of an element's number, and a number has the
-- same element by either conversion.
pub record BigEndian {Felt : Type 0} (fs : Felts Felt) : Type 0 where
  pub whole : (f : Felt) → IsWord (fs.bytes f)
  pub value : (f : Felt) → set_bytes (fs.bytes f) ≡ fs.felt_to_big_int f
  pub same : (n : ℕ) → n < 2 ^ 64 → fs.uint64_to_felt n ≡ fs.big_int_to_felt n

halves :
    {Felt : Type 0} (fs : Felts Felt)
    → BigEndian fs
    → KeepsSmall fs
    → (b : Bytes) → length b ≡ 16
    → All IsByte b
    → fs.bytes (fs.big_int_to_felt (set_bytes b)) ≡ replicate 16 0 ++ b
halves fs big keeps b h bytes =
    let f = fs.big_int_to_felt (set_bytes b) in
    let small : set_bytes b < 256 ^ 16 = rw h at (set_bytes-lt b bytes) in
    let number = keeps (set_bytes b) (omega arith) in
    let word = big.whole f in
    let size = word.0 in
    set_bytes-injective (fs.bytes f) (replicate 16 0 ++ b) (omega arith) word.1
      (All-append IsByte (replicate 16 0) b (All-replicate IsByte 16 0 (omega arith)) bytes)
      (big.value f ∙ number ∙ sym (set_bytes-zeros 16 b))

pub left_pad-IsWord : (b : Bytes) → All IsByte b → IsWord (left_pad b 32)
unfolding left_pad
left_pad-IsWord b bytes =
    if_cases IsWord (leb 32 (length b)) _ _
      (λ e.
        (omega (tests, e, length-drop (length b - 32) b), All-drop IsByte (length b - 32) b bytes))
      (λ e. (
        short (ground arith),
        All-append IsByte (replicate (32 - length b) 0) b
            (All-replicate IsByte (32 - length b) 0 (omega arith)) bytes,
      ))
  where
    short : length b < 32 → length (replicate (32 - length b) 0 ++ b) ≡ 32
    short h =
        let zeros : Bytes = replicate (32 - length b) 0 in
        let size : length zeros ≡ 32 - length b = length-replicate (32 - length b) 0 in
        omega (arith, length-append zeros b, size)

left_pad-of_IsWord : (w : Bytes) → length w ≡ 32 → left_pad w 32 ≡ w
unfolding left_pad
left_pad-of_IsWord w h = rw h refl

pub u256_to_bytes32-IsWord : (n : Option ℕ) → IsWord (u256_to_bytes32 n)
unfolding u256_to_bytes32
u256_to_bytes32-IsWord none = omega arith
u256_to_bytes32-IsWord (some n) = left_pad-IsWord (big_bytes n) (big_bytes-IsByte n)

pub u32_word-IsWord : (v : ℕ) → IsWord (u32_word v)
unfolding u32_word
u32_word-IsWord v = omega arith

pub write_words-eq-join :
    (dst : Bytes) (words : List Bytes)
    → write_words dst words ≡ dst ++ join (map (λ w. left_pad w 32) words)
unfolding write_words write_word
write_words-eq-join dst [] = sym (append-nil dst)
write_words-eq-join dst (w ∷ words) =
    write_words-eq-join (dst ++ left_pad w 32) words
    ∙ append_assoc dst (left_pad w 32) (join (map (λ w. left_pad w 32) words))

abbrev pub twice : ℕ → ℕ
twice zero = zero
twice (suc n) = suc (suc (twice n))

pub twice-eq : (n : ℕ) → twice n ≡ 2 * n
twice-eq zero = refl
twice-eq (suc n) = omega (arith, twice-eq n)

pub join-append : (xs ys : List Bytes) → join (xs ++ ys) ≡ join xs ++ join ys
join-append [] ys = refl
join-append (x ∷ xs) ys =
    ap (λ t. x ++ t) (join-append xs ys) ∙ sym (append_assoc x (join xs) (join ys))

next_chunk-append : (a rest : Bytes) → length a ≡ 16 → next_chunk (a ++ rest) ≡ a
unfolding next_chunk
next_chunk-append a rest h =
    let total = length-append a rest in
    let enough : ltb (length (a ++ rest)) 16 ≡ false = ground arith in
    rw (enough, sym h) (take-append_self a rest)

drop_chunk : (a rest : Bytes) → length a ≡ 16 → drop 16 (a ++ rest) ≡ rest
drop_chunk a rest h = rw (sym h) (drop-append_self a rest)

pub length-join : (ws : List Bytes) → All IsWord ws → length (join ws) ≡ 32 * length ws
length-join [] h = refl
length-join (w ∷ ws) h =
    let size = h.0.0 in omega (arith, length-append w (join ws), length-join ws h.1)

module _ {Felt : Type 0} (fs : Felts Felt) where
  -- The two elements of a word.
  abbrev pub pair : Bytes → Felt × Felt
  pair w = (fs.big_int_to_felt (set_bytes (take 16 w)), fs.big_int_to_felt (set_bytes (drop 16 w)))

  u128_words-append :
      (a c rest : Bytes) (rounds : ℕ)
      → length a ≡ 16
      → length c ≡ 16
      → u128_words fs (suc (suc rounds)) ((a ++ c) ++ rest)
        ≡ fs.big_int_to_felt (set_bytes a)
          ∷ fs.big_int_to_felt (set_bytes c)
          ∷ u128_words fs rounds rest
  unfolding u128_words
  u128_words-append a c rest rounds ha hc =
      rw
        (
          append_assoc a c rest,
          next_chunk-append a (c ++ rest) ha,
          drop_chunk a (c ++ rest) ha,
          next_chunk-append c rest hc,
          drop_chunk c rest hc,
        )
        refl

  pub u128_words-join :
      (ws : List Bytes)
      → All IsWord ws
      → u128_words fs (twice (length ws)) (join ws) ≡ lay_words (map pair ws)
  unfolding u128_words
  u128_words-join [] h = refl
  u128_words-join (w ∷ ws) h =
      let n = twice (length ws) in
      let split = ap (λ t. u128_words fs (suc (suc n)) (t ++ join ws)) (take-append-drop 16 w) in
      let low = length-take 16 w in
      let high = length-drop 16 w in
      let size = h.0.0 in
      let step =
        u128_words-append (take 16 w) (drop 16 w) (join ws) n (omega arith) (omega arith) in
      cc (split, step, u128_words-join ws h.1)

  module _ (networks : Networks) (big : BigEndian fs) (keeps : KeepsSmall fs) where
    word_of-pair : (w : Bytes) → IsWord w → word_of fs networks (pair w) ≡ w
    unfolding word_of order_data_word
    word_of-pair w h =
        let low = length-take 16 w in
        let high = length-drop 16 w in
        let size = h.0 in
        rw
          (
            halves fs big keeps (take 16 w) (omega arith) (All-take IsByte 16 w h.1),
            halves fs big keeps (drop 16 w) (omega arith) (All-drop IsByte 16 w h.1),
          )
          (take-append-drop 16 w)

    pub map-word_of-pair :
        (ws : List Bytes) → All IsWord ws → map (word_of fs networks) (map pair ws) ≡ ws
    map-word_of-pair [] h = refl
    map-word_of-pair (w ∷ ws) h = rw (word_of-pair w h.0, map-word_of-pair ws h.1) refl
