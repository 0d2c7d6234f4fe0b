-- ===== src/Config/Networks/Lookup.antt =====
-- Searches in the map of networks do not depend on the order of iteration.
use oif_starknet.Prelude.{
  ℕ, ◌≡◌, ◌≢◌, ◌⊎◌, ◌↔◌, inl, inr, ap, sym, ◌∙◌, Bool, true, false, List, [], ◌∷◌, none, some,
  arith, Option-cases, map, ◌==◌, if◌then◌else◌,
}
use oif_starknet.Prelude.Text.{GoString}
use oif_starknet.Config.Networks.{NetworkConfig, Networks, find_network, by_chain_id, by_domain}

abbrev pub Entry : Type 0
Entry = GoString × NetworkConfig

-- An entry stands in the map.
abbrev pub In : Entry → Networks → Type 0
In e [] = ⊥
In e (x ∷ rest) = (e ≡ x) ⊎ In e rest

-- Two iteration orders of one map.
abbrev pub SameEntries : Networks → Networks → Type 0
SameEntries l l' = (e : Entry) → In e l ↔ In e l'

-- Whether some numbers are all different.
unfoldable pub is_new : ℕ → List ℕ → Bool
is_new k [] = true
is_new k (x ∷ rest) = if k == x then false else is_new k rest

unfoldable pub all_distinct : List ℕ → Bool
unfolding is_new
all_distinct [] = true
all_distinct (x ∷ rest) = if is_new x rest then all_distinct rest else false

abbrev pub chain_ids : Networks → List ℕ
chain_ids l = map (λ (e : Entry). e.1.chain_id) l

abbrev pub domains : Networks → List ℕ
domains l = map (λ (e : Entry). e.1.hyperlane_domain) l

pub find_network-some :
    (test : NetworkConfig → Bool) (l : Networks) (e : Entry)
    → find_network test l ≡ some e
    → In e l × (test e.1 ≡ true)
unfolding find_network
find_network-some test [] e h = cc
find_network-some test ((k, n) ∷ rest) e h = ground (arith, find_network-some test rest e)

pub find_network-none :
    (test : NetworkConfig → Bool) (l : Networks) (e : Entry)
    → find_network test l ≡ none
    → In e l
    → test e.1 ≡ false
unfolding find_network
find_network-none test [] e h m = absurd m
find_network-none test ((k, n) ∷ rest) e h m = ground (arith, find_network-none test rest e)

module _ (key : NetworkConfig → ℕ) where
  abbrev keys_of : Networks → List ℕ
  keys_of l = map (λ (e : Entry). key e.1) l

  is_new-other :
      (k : ℕ) (l : Networks) (e : Entry) → is_new k (keys_of l) ≡ true → In e l → key e.1 ≢ k
  unfolding is_new
  is_new-other k [] e h m p = absurd m
  is_new-other k (x ∷ l) e h (inl same) p =
      let at_x : key x.1 ≡ k = sym (ap (λ (y : Entry). key y.1) same) ∙ p in ground arith
  is_new-other k (x ∷ l) e h (inr m) p = is_new-other k l e (ground arith) m p

  -- With different keys, entries with the same key are the same.
  keys-injective :
      (l : Networks) (a b : Entry)
      → all_distinct (keys_of l) ≡ true
      → In a l
      → In b l
      → key a.1 ≡ key b.1
      → a ≡ b
  unfolding all_distinct
  keys-injective [] a b h m n p = absurd m
  keys-injective (x ∷ l) a b h (inl p) (inl q) e = p ∙ sym q
  keys-injective (x ∷ l) a b h (inl p) (inr n) e =
      absurd (is_new-other (key x.1) l b (ground arith) n (sym e ∙ ap (λ (y : Entry). key y.1) p))
  keys-injective (x ∷ l) a b h (inr m) (inl q) e =
      absurd (is_new-other (key x.1) l a (ground arith) m (e ∙ ap (λ (y : Entry). key y.1) q))
  keys-injective (x ∷ l) a b h (inr m) (inr n) e = keys-injective l a b (ground arith) m n e

  find_network-key_iff :
      (l l' : Networks)
      → SameEntries l l'
      → all_distinct (keys_of l) ≡ true
      → (k : ℕ) (e : Entry)
      → (find_network (λ n. key n == k) l' ≡ some e) ↔ (In e l × (key e.1 ≡ k))
  find_network-key_iff l l' same distinct k e = (found, finds)
    where
      found : find_network (λ n. key n == k) l' ≡ some e → In e l × (key e.1 ≡ k)
      found h =
          let (m, t) = find_network-some (λ n. key n == k) l' e h in ((same e).1 m, ground arith)

      finds : In e l × (key e.1 ≡ k) → find_network (λ n. key n == k) l' ≡ some e
      finds (m, p) = elim (Option-cases (find_network (λ n. key n == k) l')) [
        | inl missing ↦
            let no = find_network-none (λ n. key n == k) l' e missing ((same e).0 m) in
            absurd (ground arith)
        | inr (e', h) ↦
            let (m', t) = find_network-some (λ n. key n == k) l' e' h in
            h ∙ ap some (keys-injective l e' e distinct ((same e').1 m') m (ground arith))
      ]

-- In a map of networks whose chain identifiers are all different, and whose domains are, the search
-- by chain identifier finds an entry exactly if the map has that entry with that identifier, and
-- the search by domain exactly if it has it with that domain, in whatever order the map is met.
pub by_chain_id-SameEntries :
    (l l' : Networks)
    → SameEntries l l'
    → all_distinct (chain_ids l) ≡ true
    → all_distinct (domains l) ≡ true
    → (k : ℕ) (e : Entry)
    → ((by_chain_id k l' ≡ some e) ↔ (In e l × (e.1.chain_id ≡ k)))
      × ((by_domain k l' ≡ some e) ↔ (In e l × (e.1.hyperlane_domain ≡ k)))
unfolding by_chain_id by_domain
by_chain_id-SameEntries l l' same ids hs k e = (
  find_network-key_iff (λ n. n.chain_id) l l' same ids k e,
  find_network-key_iff (λ n. n.hyperlane_domain) l l' same hs k e,
)
