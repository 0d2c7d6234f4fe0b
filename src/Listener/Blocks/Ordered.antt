-- ===== src/Listener/Blocks/Ordered.antt =====
-- The order in which a range's events are handled.
use oif_starknet.Prelude.{
  ℕ, zero, suc, ◌+◌, ◌-◌, ◌%◌, ◌^◌, ◌≡◌, ◌<◌, ◌≤◌, inl, inr, refl, sym, ap, ◌∙◌, Bool, true, false,
  List, [], ◌∷◌, ◌++◌, Option, none, some, ltb, leb, ◌==◌, if◌then◌else◌, arith, All, Bool-cases,
}
use mathlib.Core.List.{append_assoc, append-nil}
use oif_starknet.Prelude.Result.{Result, ok, panic}
use oif_starknet.Listener.Blocks.{
  ByBlock, append_event, group_by_block, events_of_block, Outcome, after_event, visit_all,
  after_block, block_loop, after_fetch, process_block_range,
}

module _ {E : Type 0} (block_number : E → ℕ) where
  -- The events of one block, in the order in which they came.
  abbrev pub in_block : ℕ → List E → List E
  in_block b [] = []
  in_block b (event ∷ logs) =
      let rest = in_block b logs in if block_number event == b then event ∷ rest else rest

  -- The events of `n` blocks, block by block.
  abbrev pub in_blocks : ℕ → ℕ → List E → List E
  in_blocks zero b logs = []
  in_blocks (suc n) b logs = in_block b logs ++ in_blocks n (b + 1) logs

  -- Every event is of block `from` or a later one, and none is of an earlier block than the one
  -- before it.
  abbrev pub InOrder : ℕ → List E → Type 0
  InOrder from [] = Unit
  InOrder from (event ∷ logs) = (from ≤ block_number event) × InOrder (block_number event) logs

  events_of_block-append_event :
      (b k : ℕ) (event : E) (m : ByBlock E)
      → events_of_block b (append_event k event m)
        ≡ events_of_block b m ++ (if k == b then event ∷ [] else [])
  unfolding events_of_block append_event
  events_of_block-append_event b k event [] = refl
  events_of_block-append_event b k event ((j, events) ∷ rest) =
      let others = events_of_block-append_event b k event rest in
      ground (arith, append-nil events, append-nil (events_of_block b rest), others)

  events_of_block-group_by_block :
      (b : ℕ) (logs : List E) (m : ByBlock E)
      → events_of_block b (group_by_block block_number logs m)
        ≡ events_of_block b m ++ in_block b logs
  unfolding group_by_block
  events_of_block-group_by_block b [] m = sym (append-nil _)
  events_of_block-group_by_block b (event ∷ logs) m =
      events_of_block-group_by_block b logs (append_event (block_number event) event m)
      ∙ ap (λ events. events ++ in_block b logs)
          (events_of_block-append_event b (block_number event) event m)
      ∙ append_assoc (events_of_block b m) (if block_number event == b then event ∷ [] else [])
          (in_block b logs)
      ∙ ap (λ events. events_of_block b m ++ events) (joined (block_number event == b))
    where
      joined :
          (t : Bool)
          → (if t then event ∷ [] else []) ++ in_block b logs
            ≡ (if t then event ∷ in_block b logs else in_block b logs)
      joined true = refl
      joined false = refl

  in_block-InOrder :
      (b from : ℕ) (logs : List E) → InOrder from logs → b < from → in_block b logs ≡ []
  in_block-InOrder b from [] sorted h = refl
  in_block-InOrder b from (event ∷ logs) (later, sorted) h =
      let rest : in_block b logs ≡ [] =
        in_block-InOrder b (block_number event) logs sorted (omega arith) in
      ground arith

  in_blocks-skip :
      (n b : ℕ) (event : E) (logs : List E)
      → block_number event < b
      → in_blocks n b (event ∷ logs) ≡ in_blocks n b logs
  in_blocks-skip zero b event logs h = refl
  in_blocks-skip (suc n) b event logs h =
      let rest : in_blocks n (b + 1) (event ∷ logs) ≡ in_blocks n (b + 1) logs =
        in_blocks-skip n (b + 1) event logs (omega arith) in
      ground arith

  InOrder-le : (a b : ℕ) (logs : List E) → b ≤ a → InOrder a logs → InOrder b logs
  InOrder-le a b [] h sorted = tt
  InOrder-le a b (event ∷ logs) h (later, sorted) = (omega (arith, h, later), sorted)

  -- Events in block order are handled as they came.
  pub in_blocks-InOrder :
      (n from top : ℕ) (logs : List E)
      → top ≡ from + n
      → InOrder from logs
      → All (λ event. block_number event < top) logs
      → in_blocks n from logs ≡ logs
  in_blocks-InOrder zero from top [] q sorted below = refl
  in_blocks-InOrder zero from top (event ∷ logs) q sorted below =
      absurd (omega (arith, q, sorted.0, below.0))
  in_blocks-InOrder (suc n) from top [] q sorted below =
      in_blocks-InOrder n (from + 1) top [] (omega (arith, q)) tt tt
  in_blocks-InOrder (suc n) from top (event ∷ logs) q (later, sorted) (first, below) =
      elim (Bool-cases (block_number event == from)) [
        | inl e ↦
            rw (e, in_blocks-skip n (from + 1) event logs (ground arith))
              (ap (λ rest. event ∷ rest)
                (in_blocks-InOrder (suc n) from top logs q
                  (InOrder-le (block_number event) from logs later sorted) below))
        | inr e ↦
            rw (e, in_block-InOrder from (block_number event) logs sorted (ground arith))
              (in_blocks-InOrder n (from + 1) top (event ∷ logs) (omega (arith, q))
                (ground arith, sorted) (first, below))
      ]

-- A range that was visited ends with its last block, unless there was a panic.
abbrev pub finish : {St : Type 0} → ℕ → Outcome St → Option (Result ℕ × St)
finish to_block (none, s) = some (ok to_block, s)
finish to_block (some p, s) = some (panic p, s)

module _ {St E : Type 0} (visit : E → St → Outcome St) (block_number : E → ℕ) where
  visit_all-append :
      (xs ys : List E) (s : St)
      → visit_all visit (xs ++ ys) s ≡ after_event visit (visit_all visit xs s) (visit_all visit ys)
  unfolding visit_all after_event
  visit_all-append [] ys s = refl
  visit_all-append (x ∷ xs) ys s = next (visit x s) (visit_all-append xs ys)
    where
      next :
          (r : Outcome St)
          → ((t : St)
              → visit_all visit (xs ++ ys) t
                ≡ after_event visit (visit_all visit xs t) (visit_all visit ys))
          → after_event visit r (visit_all visit (xs ++ ys))
            ≡ after_event visit (after_event visit r (visit_all visit xs)) (visit_all visit ys)
      next (none, t) rest = rest t
      next (some p, t) rest = refl

  block_loop_step :
      (fuel to_block b last : ℕ) (m : ByBlock E) (s : St)
      → b ≤ to_block
      → to_block + 1 < 2 ^ 64
      → block_loop visit (suc fuel) m to_block b last s
        ≡ after_block visit
            (visit_all visit (events_of_block b m) s)
            (block_loop visit fuel m to_block (b + 1) b)
  unfolding block_loop
  block_loop_step fuel to_block b last m s below small =
      let no_wrap : (b + 1) % 2 ^ 64 ≡ b + 1 = omega (arith, below, small) in
      let goes_on : leb b to_block ≡ true = ground arith in rw (goes_on, no_wrap) refl

  -- A block's visit, and then the rest.
  after_block-finish :
      (to_block : ℕ) (r : Outcome St) (ys : List E) (next : St → Option (Result ℕ × St))
      → ((t : St) → next t ≡ finish to_block (visit_all visit ys t))
      → after_block visit r next ≡ finish to_block (after_event visit r (visit_all visit ys))
  unfolding after_block after_event
  after_block-finish to_block (none, t) ys next h = h t
  after_block-finish to_block (some p, t) ys next h = refl

  block_loop_first :
      (n fuel to_block b last : ℕ) (logs : List E) (s : St)
      → b ≤ to_block
      → to_block + 1 < 2 ^ 64
      → ((t : St)
          → block_loop visit fuel (group_by_block block_number logs []) to_block (b + 1) b t
            ≡ finish to_block (visit_all visit (in_blocks block_number n (b + 1) logs) t))
      → block_loop visit (suc fuel) (group_by_block block_number logs []) to_block b last s
        ≡ finish to_block (visit_all visit (in_blocks block_number (suc n) b logs) s)
  unfolding events_of_block
  block_loop_first n fuel to_block b last logs s below small next =
      let blocks = in_blocks block_number n (b + 1) logs in
      rw
        (
          block_loop_step fuel to_block b last (group_by_block block_number logs []) s below small,
          events_of_block-group_by_block block_number b logs [],
          visit_all-append (in_block block_number b logs) blocks s,
        )
        (after_block-finish to_block (visit_all visit (in_block block_number b logs) s) blocks _
          next)

  block_loop_lem :
      (n fuel to_block b last : ℕ) (logs : List E) (s : St)
      → to_block + 1 ≡ b + n
      → last + 1 ≡ b
      → n < fuel
      → to_block + 1 < 2 ^ 64
      → block_loop visit fuel (group_by_block block_number logs []) to_block b last s
        ≡ finish to_block (visit_all visit (in_blocks block_number n b logs) s)
  unfolding block_loop visit_all
  block_loop_lem n zero to_block b last logs s q ends enough small = absurd (omega (arith, enough))
  block_loop_lem zero (suc fuel) to_block b last logs s q ends enough small =
      let over : leb b to_block ≡ false = ground arith in
      let same : last ≡ to_block = omega (arith, q, ends) in rw over (ap (λ x. some (ok x, s)) same)
  block_loop_lem (suc n) (suc fuel) to_block b last logs s q ends enough small =
      block_loop_first n fuel to_block b last logs s (omega (arith, q)) small λ t.
        block_loop_lem n fuel to_block (b + 1) b logs t (omega (arith, q)) refl
          (omega (arith, enough)) small

  -- Where the node gives the events of a range in block order, and the fuel is more than the number
  -- of its blocks by one, the range is read to its end: the events are visited in the order in which they came, and the answer is the
  -- last block, or the panic of a visit.
  pub process_block_range-InOrder :
      (fuel last from_block to_block : ℕ) (fetch : ℕ → ℕ → St → Result (List E)) (logs : List E)
      (s : St)
      → from_block ≤ to_block
      → to_block + 1 < 2 ^ 64
      → to_block + 2 ≤ from_block + fuel
      → fetch from_block to_block s ≡ ok logs
      → InOrder block_number from_block logs
      → All (λ event. block_number event < to_block + 1) logs
      → process_block_range visit fuel block_number fetch last from_block to_block s
        ≡ finish to_block (visit_all visit logs s)
  unfolding process_block_range after_fetch
  process_block_range-InOrder zero last from_block to_block fetch logs s below small enough fetched
        sorted within =
      absurd (omega arith)
  process_block_range-InOrder (suc fuel) last from_block to_block fetch logs s below small enough
        fetched sorted within =
      let n = to_block - from_block in
      let valid : ltb to_block from_block ≡ false = ground arith in
      rw (valid, fetched)
        (block_loop_first n fuel to_block from_block last logs s below small (λ t.
            block_loop_lem n fuel to_block (from_block + 1) from_block logs t (omega (arith, below))
              refl (omega (arith, below, enough)) small)
          ∙ ap (λ events. finish to_block (visit_all visit events s))
              (in_blocks-InOrder block_number (suc n) from_block (to_block + 1) logs
                (omega (arith, below)) sorted within))
