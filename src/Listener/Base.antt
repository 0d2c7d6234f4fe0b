-- ===== src/Listener/Base.antt =====
-- The functions of the listeners that choose blocks. The reading of a range of blocks and the
-- chain's height are parameters, whose answers may depend on what was done before.
use oif_starknet.Prelude.{
  ℕ, zero, suc, ◌+◌, ◌-◌, ◌%◌, ◌^◌, List, ◌∷◌, Option, none, some, ltb, leb, ◌==◌, ◌&&◌,
  if◌then◌else◌,
}
use oif_starknet.Prelude.Int.{ℤ, pos, negsuc}
use oif_starknet.Prelude.Result.{Result, ok, err, panic, wrap}
use oif_starknet.Prelude.Text.{GoString}

pub record ListenerConfig : Type 0 where
  pub contract_address : GoString
  pub chain_name : GoString
  pub initial_block : ℤ
  pub poll_interval : ℤ
  pub confirmation_blocks : ℕ
  pub max_block_range : ℕ

abbrev pub or_when_zero : ℤ → ℤ → ℤ
or_when_zero (pos zero) d = d
or_when_zero (pos (suc n)) d = pos (suc n)
or_when_zero (negsuc n) d = negsuc n

-- `NewListenerConfig`, with its defaults.
unfoldable pub new_listener_config : GoString → GoString → ℤ → ℤ → ℕ → ℕ → ListenerConfig
new_listener_config address name initial poll confirmations range = record {
  contract_address = address;
  chain_name = name;
  initial_block = initial;
  poll_interval = or_when_zero poll (pos 10000);
  confirmation_blocks = confirmations;
  max_block_range = if range == 0 then 9 else range;
}

-- `current - uint64(-start)`, and 0 if that wrapped around.
unfoldable pub blocks_before : ℕ → ℕ → ℕ
blocks_before current n =
    let start_block = (current + 2 ^ 64 - n) % 2 ^ 64 in
    if ltb current start_block then 0 else start_block

unfoldable pub from_current : ℤ → ℕ → ℕ
unfolding blocks_before
from_current (pos n) current = current
from_current (negsuc n) current = blocks_before current (suc n)

-- `ResolveSolverStartBlock`, given the answer of `BlockNumber`.
unfoldable pub resolve_solver_start_block : ℤ → Result ℕ → Result ℕ
unfolding from_current
resolve_solver_start_block (pos (suc n)) current = ok (suc n)
resolve_solver_start_block start (ok current) = ok (from_current start current)
resolve_solver_start_block start (err e) = err (wrap "failed to get current block number" e)
resolve_solver_start_block start (panic p) = panic p

-- The confirmations window.
unfoldable pub safe_block : ℕ → ℕ → ℕ
safe_block confirmations current =
    if ltb 0 confirmations && ltb confirmations current then current - confirmations else current

-- What a listener has done: read a range of blocks, and recorded the last block.
pub data Event : Type 0 where
  processed : ℕ → ℕ → Event
  indexed : ℕ → Event

abbrev pub Events : Type 0
Events = List Event

module _ (process_block_range : Events → ℕ → ℕ → Result ℕ) where
  -- The last block of the range that starts at a block.
  unfoldable pub chunk_end : ℕ → ℕ → ℕ → ℕ
  chunk_end chunk to_block start =
      let end = (start + chunk + 2 ^ 64 - 1) % 2 ^ 64 in if ltb to_block end then to_block else end

  -- The rest of a round: an error ends the loop, and a block is recorded.
  unfoldable pub after_chunk :
      Result ℕ
      → ℕ
      → ℕ
      → Events
      → (ℕ → Events → Option (Result ℕ × Events))
      → Option (Result ℕ × Events)
  after_chunk (ok last) start end h next = next last (indexed last ∷ processed start end ∷ h)
  after_chunk (err e) start end h next =
      some (err (wrap "failed to process blocks" e), processed start end ∷ h)
  after_chunk (panic p) start end h next = some (panic p, processed start end ∷ h)

  -- The loop of `ProcessCurrentBlockRangeCommon` on fuel; `none` when there is not enough of it.
  unfoldable pub chunk_loop : ℕ → ℕ → ℕ → ℕ → ℕ → Events → Option (Result ℕ × Events)
  unfolding chunk_end after_chunk
  chunk_loop zero chunk to_block start new_last h = none
  chunk_loop (suc fuel) chunk to_block start new_last h =
      let next = chunk_loop fuel chunk to_block ((start + chunk) % 2 ^ 64) in
      if leb start to_block
      then after_chunk (process_block_range h start (chunk_end chunk to_block start)) start
          (chunk_end chunk to_block start) h next
      else some (ok new_last, h)

  -- `*lastProcessedBlock = newLast`, unless there was an error.
  unfoldable pub store_last :
      ℕ → Option (Result ℕ × Events) → Option (Result (Unit {0}) × ℕ × Events)
  store_last last none = none
  store_last last (some (ok new_last, h)) = some (ok tt, new_last, h)
  store_last last (some (err e, h)) = some (err e, last, h)
  store_last last (some (panic p, h)) = some (panic p, last, h)

  -- `ProcessCurrentBlockRangeCommon`, given the answer of `BlockNumber`: the result, the last
  -- processed block, and the events.
  unfoldable pub process_current_block_range :
      ℕ → ListenerConfig → Result ℕ → ℕ → Events → Option (Result (Unit {0}) × ℕ × Events)
  unfolding chunk_loop store_last safe_block
  process_current_block_range fuel c (ok current) last h =
      let from_block = (last + 1) % 2 ^ 64 in
      let to_block = safe_block c.confirmation_blocks current in
      if ltb to_block from_block
      then some (ok tt, last, h)
      else store_last last (chunk_loop fuel c.max_block_range to_block from_block last h)
  process_current_block_range fuel c (err e) last h =
      some (err (wrap "failed to get current block number" e), last, h)
  process_current_block_range fuel c (panic p) last h = some (panic p, last, h)
