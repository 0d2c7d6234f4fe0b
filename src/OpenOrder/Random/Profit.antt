-- ===== src/OpenOrder/Random/Profit.antt =====
-- The random orders pay the solver: it receives more than it spends, between two different chains.
use native.Mathlib.Nat.{mod-eq_of_lt, mod_self}
use oif_starknet.Prelude.{
  ℕ, zero, suc, ◌+◌, ◌*◌, ◌%◌, ◌^◌, ◌≡◌, ◌<◌, ◌≤◌, refl, sym, ◌∙◌, ap, false, List, [], ◌∷◌, none,
  some, arith, ltb, ◌==◌, length, get_elem?, All, Bool-cases, inl, inr,
}
use oif_starknet.Prelude.Int.{pos}
use oif_starknet.Prelude.Result.{ok}
use oif_starknet.Prelude.Text.{str_eq, str_eq_iff}
use oif_starknet.OpenOrder.Random.{
  Draw, Draws, ToolNetwork, evm_networks, network_at, same_index, other_index, order_between,
  evm_order, open_random_to_evm, open_random_to_starknet, starknet_network_name, secure_random_int,
  create_token_amount,
}
use oif_starknet.OpenOrder.Random.Bounds.{
  IsDraw, secure_random_int-Within, random_tokens-bounds, random_delta-bounds,
}

abbrev pub AreDraws : Draws → Type 0
AreDraws draws =
    IsDraw draws.origin × IsDraw draws.destination × IsDraw draws.amount × IsDraw draws.delta

abbrev NotStarknet : ToolNetwork → Type 0
NotStarknet n = str_eq n.name starknet_network_name ≡ false

evm_networks-NotStarknet : (ns : List ToolNetwork) → All NotStarknet (evm_networks ns)
unfolding evm_networks
evm_networks-NotStarknet [] = tt
evm_networks-NotStarknet (n ∷ ns) = elim (Bool-cases (str_eq n.name starknet_network_name)) [
  | inl e ↦ rw e (evm_networks-NotStarknet ns)
  | inr e ↦ rw e (e, evm_networks-NotStarknet ns)
]

-- The entry at a position within a list.
element_at :
    {P : ToolNetwork → Type 0} (ns : List ToolNetwork) (i : ℕ)
    → All P ns
    → i < length ns
    → (n : ToolNetwork) × (get_elem? ns i ≡ some n) × P n
element_at [] i h small = absurd (omega arith)
element_at (n ∷ ns) zero h small = (n, refl, h.0)
element_at (n ∷ ns) (suc i) h small = element_at ns i h.1 (omega arith)

network_at-some :
    (ns : List ToolNetwork) (i : ℕ) (n : ToolNetwork)
    → get_elem? ns i ≡ some n
    → network_at ns (pos i) ≡ ok n
unfolding network_at
network_at-some ns i n e = rw (network_at, e) refl

other_index-different :
    (rounds size i j : ℕ) → ¬ (j ≡ i) → other_index rounds size (pos i) (pos j) ≡ some (pos j)
unfolding other_index same_index
other_index-different zero size i j h = let e : (j == i) ≡ false = ground arith in rw e refl
other_index-different (suc rounds) size i j h = let e : (j == i) ≡ false = ground arith in rw e refl

next_index : (size i : ℕ) → 2 ≤ size → i < size → ¬ ((i + 1) % size ≡ i)
next_index size i two hi = elim (Bool-cases (ltb (i + 1) size)) [
  | inl e ↦ let small : i + 1 < size = ground arith in λ h. omega (arith, h, mod-eq_of_lt small)
  | inr e ↦
      let last : i + 1 ≡ size = ground arith in
      let zero_next : (i + 1) % size ≡ 0 = rw (sym last) (mod_self (i + 1)) in λ h. omega arith
]

-- One round is enough where there are two entries.
other_index_lem :
    (rounds size i j : ℕ)
    → 1 ≤ rounds
    → 2 ≤ size
    → i < size
    → j < size
    → (k : ℕ) × (other_index rounds size (pos i) (pos j) ≡ some (pos k)) × (k < size) × ¬ (k ≡ i)
unfolding other_index same_index
other_index_lem zero size i j h two hi hj = absurd (omega arith)
other_index_lem (suc rounds) size i j h two hi hj = elim (Bool-cases (j == i)) [
  | inl e ↦
      let moved : ¬ ((i + 1) % size ≡ i) = next_index size i two hi in
      (
        (i + 1) % size,
        rw e (other_index-different rounds size i ((i + 1) % size) moved),
        omega arith,
        moved,
      )
  | inr e ↦ (j, rw e refl, hj, ground arith)
]

-- With one entry, no number of rounds is enough.
other_index-single : (rounds : ℕ) → other_index rounds 1 (pos 0) (pos 0) ≡ none
unfolding other_index same_index
other_index-single zero = refl
other_index-single (suc rounds) = other_index-single rounds

tokens_lem : (m : ℕ) → m ≤ 10 → create_token_amount (pos m) 18 ≡ m * 10 ^ 18
unfolding create_token_amount
tokens_lem m h = omega arith

scaled : (a b : ℕ) → a * 10 ^ 18 + b * 10 ^ 18 ≡ (a + b) * 10 ^ 18
scaled a b = omega arith

-- An order from the entry at one position to that at another, neither of them Starknet.
abbrev pub BetweenEvm : List ToolNetwork → ToolNetwork → ToolNetwork → Type 0
BetweenEvm ns origin destination =
    (i j : ℕ) × ¬ (j ≡ i)
    × (get_elem? (evm_networks ns) i ≡ some origin)
    × (get_elem? (evm_networks ns) j ≡ some destination)
    × NotStarknet origin
    × NotStarknet destination

-- With two EVM networks or more, and draws that are not the least `int64`, the command
-- `random-to-evm` ends after one round of its loop, and its order runs between two different
-- entries that are not Starknet. The user is to receive 100 to 10000 whole tokens and pays 1 to 10
-- whole tokens more.
pub open_random_to_evm_lem :
    (rounds : ℕ) (networks : List ToolNetwork) (draws : Draws) (now : ℕ)
    → 1 ≤ rounds
    → 2 ≤ length (evm_networks networks)
    → AreDraws draws
    → (origin : ToolNetwork) × (destination : ToolNetwork) × (amount : ℕ) × (margin : ℕ)
      × BetweenEvm networks origin destination
      × (100 ≤ amount)
      × (amount ≤ 10000)
      × (1 ≤ margin)
      × (margin ≤ 10)
      × (open_random_to_evm rounds networks draws now
          ≡ some (
              ok (
                order_between origin.name destination.name
                  (pos ((amount + margin) * 10 ^ 18))
                  (pos (amount * 10 ^ 18))
                  now)))
unfolding open_random_to_evm evm_order
open_random_to_evm_lem rounds networks draws now h two
      (d_origin, d_destination, d_amount, d_delta) =
    let evm = evm_networks networks in
    let (i, ei, hi) = secure_random_int-Within (length evm) draws.origin (omega arith) d_origin in
    let (j, ej, hj) =
      secure_random_int-Within (length evm) draws.destination (omega arith) d_destination in
    let (k, ek, hk, differs) = other_index_lem rounds (length evm) i j h two hi hj in
    let (origin, at_origin, evm_origin) = element_at evm i (evm_networks-NotStarknet networks) hi in
    let (destination, at_destination, evm_destination) =
      element_at evm k (evm_networks-NotStarknet networks) hk in
    let (amount, ea, low, high) = random_tokens-bounds draws.amount d_amount in
    let (margin, em, least, most) = random_delta-bounds draws.delta d_delta in
    let some_networks : (length evm == 0) ≡ false = ground arith in
    (
      origin,
      destination,
      amount,
      margin,
      (i, k, differs, at_origin, at_destination, evm_origin, evm_destination),
      low,
      high,
      least,
      most,
      rw
          (
            ei,
            ej,
            ek,
            network_at-some evm i origin at_origin,
            network_at-some evm k destination at_destination,
            ea,
            em,
            tokens_lem margin most,
            some_networks,
            scaled amount margin,
          )
          refl,
    )

only_draw : (d : Draw) → IsDraw d → secure_random_int 1 d ≡ pos 0
only_draw d draw =
    let (n, e, h) = secure_random_int-Within 1 d (omega arith) draw in
    let least : n ≡ 0 = omega arith in e ∙ ap pos least

-- With a single EVM network, and draws that are not the least `int64`, the command `random-to-evm`
-- does not end: its loop looks for another index among one, whatever number of rounds it has.
pub open_random_to_evm-single :
    (rounds : ℕ) (networks : List ToolNetwork) (draws : Draws) (now : ℕ)
    → length (evm_networks networks) ≡ 1
    → AreDraws draws
    → open_random_to_evm rounds networks draws now ≡ none
unfolding open_random_to_evm evm_order
open_random_to_evm-single rounds networks draws now one
      (d_origin, d_destination, d_amount, d_delta) =
    rw
      (
        one,
        only_draw draws.origin d_origin,
        only_draw draws.destination d_destination,
        other_index-single rounds,
      )
      refl

-- With an EVM network and draws that are not the least `int64`, the order of the command
-- `random-to-sn` runs from a network other than Starknet to Starknet. The user is to receive 100 to
-- 10000 whole tokens, and pays 1 to 10 of the token's smallest units more.
pub open_random_to_starknet_lem :
    (networks : List ToolNetwork) (draws : Draws) (now : ℕ)
    → 1 ≤ length (evm_networks networks)
    → AreDraws draws
    → (origin : ToolNetwork) × (amount : ℕ) × (margin : ℕ) × ¬ (origin.name ≡ starknet_network_name)
      × (100 ≤ amount)
      × (amount ≤ 10000)
      × (1 ≤ margin)
      × (margin ≤ 10)
      × (open_random_to_starknet networks draws now
          ≡ ok (
              order_between origin.name starknet_network_name
                (pos (amount * 10 ^ 18 + margin))
                (pos (amount * 10 ^ 18))
                now))
unfolding open_random_to_starknet
open_random_to_starknet_lem networks draws now enough (d_origin, d_destination, d_amount, d_delta) =
    let evm = evm_networks networks in
    let (i, ei, hi) = secure_random_int-Within (length evm) draws.origin (omega arith) d_origin in
    let (origin, at_origin, evm_origin) = element_at evm i (evm_networks-NotStarknet networks) hi in
    let (amount, ea, low, high) = random_tokens-bounds draws.amount d_amount in
    let (margin, em, least, most) = random_delta-bounds draws.delta d_delta in
    let some_networks : (length evm == 0) ≡ false = ground arith in
    (
      origin,
      amount,
      margin,
      (λ same. let e = (str_eq_iff origin.name starknet_network_name).1 same in cc),
      low,
      high,
      least,
      most,
      rw (ei, network_at-some evm i origin at_origin, ea, em, some_networks) refl,
    )
