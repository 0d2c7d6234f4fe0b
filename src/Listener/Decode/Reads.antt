-- ===== src/Listener/Decode/Reads.antt =====
-- What the readers make of field elements that were laid out for them.
use oif_starknet.Prelude.{
  ℕ, ◌+◌, ◌*◌, ◌^◌, ◌≡◌, ◌<◌, refl, sym, ap, ◌∙◌, List, [], ◌∷◌, ◌++◌, some, length, get_elem?,
  length-append, map, arith, All,
}
use mathlib.Core.List.{append_assoc, append-nil}
use oif_starknet.Prelude.Result.{Result, ok}
use oif_starknet.Config.Networks.{Networks}
use oif_starknet.StarknetUtil.{Felts, KeepsSmall, split_u256, add_u256}
use oif_starknet.StarknetUtil.Words.{u256_round_trip}
use oif_starknet.Prelude.BigInt.{to_uint64, to_uint32}
use mathlib.Core.Path.{subst}
use oif_starknet.Listener.Decode.{
  Reader, after_read, read_pure, ◌>>=◌, read_many, at_index, felt_at, read_felt, read_u32, read_u64,
  read_u256, address_text, read_address,
}

-- Wherever the elements stand in data with a property, the reader takes them, and gives the value.
pub record Reads {Felt A : Type 0} (K : List Felt → Type 0) (m : Reader Felt A) (laid : List Felt)
    (a : A) : Type 0 where
  pub at :
      (front back : List Felt)
      → K (front ++ (laid ++ back))
      → m (front ++ (laid ++ back)) (length front) ≡ ok (a, length front + length laid)

get_elem?-append_self :
    {Felt : Type 0} (front : List Felt) (f : Felt) (back : List Felt)
    → get_elem? (front ++ (f ∷ back)) (length front) ≡ some f
get_elem?-append_self [] f back = refl
get_elem?-append_self (x ∷ front) f back = get_elem?-append_self front f back

bind_step :
    {Felt A B : Type 0} (m : Reader Felt A) (f : A → Reader Felt B) (d : List Felt) (i j : ℕ)
    (a : A) (r : Result (B × ℕ))
    → m d i ≡ ok (a, j)
    → f a d j ≡ r
    → (m >>= f) d i ≡ r
unfolding ◌>>=◌ after_read
bind_step m f d i j a r h k = rw h k

-- The layouts of some things, one behind the other.
abbrev pub lay_all : {Felt X : Type 0} → (X → List Felt) → List X → List Felt
lay_all lay [] = []
lay_all lay (x ∷ xs) = lay x ++ lay_all lay xs

module _ {Felt : Type 0} (K : List Felt → Type 0) where
  pub Reads-read_pure : {A : Type 0} (a : A) → Reads K (read_pure a) [] a
  unfolding read_pure
  Reads-read_pure a = record { at = λ front back k. ap (λ n. ok (a, n)) (omega arith) }

  pub Reads-bind :
      {A B : Type 0} (m : Reader Felt A) (f : A → Reader Felt B) (first second : List Felt) (a : A)
      (b : B)
      → Reads K m first a
      → Reads K (f a) second b
      → Reads K (m >>= f) (first ++ second) b
  Reads-bind m f first second a b hm hf = record {
    at = λ front back k.
        let n = length-append front first in
        let total = length-append first second in
        let inner = ap (λ x. front ++ x) (append_assoc first second back) in
        let outer = append_assoc front first (second ++ back) in
        let first_at = hm.at front (second ++ back) (subst K inner k) in
        let second_at = hf.at (front ++ first) back (subst K (inner ∙ sym outer) k) in
        bind_step m f (front ++ ((first ++ second) ++ back)) (length front)
          (length front + length first) a _ (cc (inner, first_at))
          (cc (
            inner,
            outer,
            n,
            second_at,
            add_up (length front) (length first) (length second) total,
          ));
  }
    where
      add_up : (x y z : ℕ) {t : ℕ} → t ≡ y + z → x + t ≡ (x + y) + z
      add_up x y z h = omega arith

  pub Reads-many :
      {X A : Type 0} (P : X → Type 0) (entry : Reader Felt A) (lay : X → List Felt) (value : X → A)
      → ((x : X) → P x → Reads K entry (lay x) (value x))
      → (xs : List X) → All P xs
      → Reads K (read_many (length xs) entry) (lay_all lay xs) (map value xs)
  unfolding read_many
  Reads-many P entry lay value h [] p = Reads-read_pure []
  Reads-many P entry lay value h (x ∷ xs) p =
      Reads-bind entry _ (lay x) (lay_all lay xs) (value x) _ (h x p.0)
        (with_rest (Reads-many P entry lay value h xs p.1))
    where
      with_rest :
          Reads K (read_many (length xs) entry) (lay_all lay xs) (map value xs)
          → Reads K
              (read_many (length xs) entry >>= λ rest. read_pure (value x ∷ rest))
              (lay_all lay xs)
              (value x ∷ map value xs)
      with_rest r =
          rw (sym (append-nil (lay_all lay xs)))
            (Reads-bind _ _ (lay_all lay xs) [] (map value xs) _ r (Reads-read_pure _))

module _ {Felt : Type 0} (K : List Felt → Type 0) (fs : Felts Felt) (networks : Networks) where
  pub Reads-read_felt : (f : Felt) → Reads K (read_felt fs networks) (f ∷ []) f
  unfolding read_felt felt_at at_index
  Reads-read_felt f = record { at = λ front back k. rw (get_elem?-append_self front f back) refl }

  -- A value that is computed from one element.
  Reads-of_felt :
      {A : Type 0} (f : Felt) (g : Felt → A)
      → Reads K (read_felt fs networks >>= λ x. read_pure (g x)) (f ∷ []) (g f)
  Reads-of_felt f g =
      Reads-bind K _ _ (f ∷ []) [] f (g f) (Reads-read_felt f) (Reads-read_pure K (g f))

  pub Reads-read_address :
      (f : Felt) → Reads K (read_address fs networks) (f ∷ []) (address_text fs networks f)
  unfolding read_address
  Reads-read_address f = Reads-of_felt f (address_text fs networks)

  module _ (keeps : KeepsSmall fs) where
    pub Reads-read_u32 :
        (n : ℕ) → n < 2 ^ 32 → Reads K (read_u32 fs networks) (fs.big_int_to_felt n ∷ []) n
    unfolding read_u32
    Reads-read_u32 n h =
        subst (λ v. Reads K (read_u32 fs networks) (fs.big_int_to_felt n ∷ []) v)
          (omega (arith, keeps n (omega (arith, h))))
          (Reads-of_felt (fs.big_int_to_felt n) (λ f. to_uint32 (to_uint64 (fs.felt_to_big_int f))))

    pub Reads-read_u64 :
        (n : ℕ) → n < 2 ^ 64 → Reads K (read_u64 fs networks) (fs.big_int_to_felt n ∷ []) n
    unfolding read_u64
    Reads-read_u64 n h =
        subst (λ v. Reads K (read_u64 fs networks) (fs.big_int_to_felt n ∷ []) v)
          (omega (arith, keeps n (omega (arith, h))))
          (Reads-of_felt (fs.big_int_to_felt n) (λ f. to_uint64 (fs.felt_to_big_int f)))

    -- A 256-bit number stands as the two elements that the handlers split it into.
    pub Reads-read_u256 :
        (n : ℕ)
        → n < 2 ^ 256
        → Reads K (read_u256 fs networks) ((split_u256 fs n).0 ∷ (split_u256 fs n).1 ∷ []) n
    unfolding read_u256
    Reads-read_u256 n h =
        subst
          (λ v. Reads K (read_u256 fs networks) ((split_u256 fs n).0 ∷ (split_u256 fs n).1 ∷ []) v)
          (sum (u256_round_trip fs keeps n h).1)
          (Reads-bind K _ _ ((split_u256 fs n).0 ∷ []) ((split_u256 fs n).1 ∷ [])
            (split_u256 fs n).0 _ (Reads-read_felt _)
            (Reads-of_felt (split_u256 fs n).1
              λ high. fs.felt_to_big_int (split_u256 fs n).0 + fs.felt_to_big_int high * 2 ^ 128))
      where
        sum :
            add_u256 fs (split_u256 fs n).0 (split_u256 fs n).1 ≡ n
            → fs.felt_to_big_int (split_u256 fs n).0
                + fs.felt_to_big_int (split_u256 fs n).1 * 2 ^ 128
              ≡ n
        sum e = unfold add_u256 in e
