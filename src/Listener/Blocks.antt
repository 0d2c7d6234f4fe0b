-- ===== src/Listener/Blocks.antt =====
-- solver/solvercore/solvers/hyperlane7683/listener_evm.go and listener_starknet.go: the reading of a
-- range of blocks. The state is what the event handler acts on; the node's answers depend on it.
pub mod Ordered
pub mod Listeners
pub mod Reading
use oif_starknet.Prelude.{
  ℕ, zero, suc, ◌+◌, ◌%◌, ◌^◌, Bool, true, false, List, [], ◌∷◌, ◌++◌, Option, none, some, ltb, leb,
  ◌==◌, if◌then◌else◌,
}
use oif_starknet.Prelude.Result.{Result, Panic, ok, err, panic}

-- `byBlock`: the events of each block, in the order in which they came.
abbrev pub ByBlock : Type 0 → Type 0
ByBlock E = List (ℕ × List E)

module _ {E : Type 0} where
  -- `byBlock[k] = append(byBlock[k], event)`
  unfoldable pub append_event : ℕ → E → ByBlock E → ByBlock E
  append_event k event [] = (k, event ∷ []) ∷ []
  append_event k event ((j, events) ∷ rest) =
      let others = append_event k event rest in
      if j == k then (j, events ++ (event ∷ [])) ∷ rest else (j, events) ∷ others

  unfoldable pub group_by_block : (E → ℕ) → List E → ByBlock E → ByBlock E
  unfolding append_event
  group_by_block block_number [] by_block = by_block
  group_by_block block_number (event ∷ logs) by_block =
      group_by_block block_number logs (append_event (block_number event) event by_block)

  -- `byBlock[b]`
  unfoldable pub events_of_block : ℕ → ByBlock E → List E
  events_of_block b [] = []
  events_of_block b ((j, events) ∷ rest) =
      let others = events_of_block b rest in if j == b then events else others

abbrev pub Outcome : Type 0 → Type 0
Outcome St = Option Panic × St

module _ {St E : Type 0} (visit : E → St → Outcome St) where
  -- A panic ends the loops: the listener's goroutine dies of it.
  unfoldable pub after_event : Outcome St → (St → Outcome St) → Outcome St
  after_event (none, s) next = next s
  after_event (some p, s) next = (some p, s)

  -- The loop over a block's events.
  unfoldable pub visit_all : List E → St → Outcome St
  unfolding after_event
  visit_all [] s = (none, s)
  visit_all (event ∷ events) s = after_event (visit event s) (visit_all events)

  unfoldable pub after_block : Outcome St → (St → Option (Result ℕ × St)) → Option (Result ℕ × St)
  after_block (none, s) next = next s
  after_block (some p, s) next = some (panic p, s)

  -- The loop over the blocks on fuel; `none` when there is not enough of it.
  unfoldable pub block_loop : ℕ → ByBlock E → ℕ → ℕ → ℕ → St → Option (Result ℕ × St)
  unfolding after_block visit_all events_of_block
  block_loop zero by_block to_block b new_last s = none
  block_loop (suc fuel) by_block to_block b new_last s =
      let next = block_loop fuel by_block to_block ((b + 1) % 2 ^ 64) b in
      if leb b to_block
      then after_block (visit_all (events_of_block b by_block) s) next
      else some (ok new_last, s)

  unfoldable pub after_fetch :
      ℕ → (E → ℕ) → ℕ → ℕ → ℕ → Result (List E) → St → Option (Result ℕ × St)
  unfolding block_loop group_by_block
  after_fetch fuel block_number last from_block to_block (ok logs) s =
      block_loop fuel (group_by_block block_number logs []) to_block from_block last s
  after_fetch fuel block_number last from_block to_block (err e) s = some (err e, s)
  after_fetch fuel block_number last from_block to_block (panic p) s = some (panic p, s)

  -- `processBlockRange` of a listener whose last processed block is `last`; `fetch` gives the
  -- query's answer, its error with the listener's own text.
  unfoldable pub process_block_range :
      ℕ → (E → ℕ) → (ℕ → ℕ → St → Result (List E)) → ℕ → ℕ → ℕ → St → Option (Result ℕ × St)
  unfolding after_fetch
  process_block_range fuel block_number fetch last from_block to_block s =
      if ltb to_block from_block
      then some (ok last, s)
      else after_fetch fuel block_number last from_block to_block (fetch from_block to_block s) s
