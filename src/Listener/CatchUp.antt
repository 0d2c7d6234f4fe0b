-- ===== src/Listener/CatchUp.antt =====
-- solver/solvercore/solvers/hyperlane7683/listener_base.go: the backfill of a listener
-- and the marking of a block.
pub mod Ranges
use oif_starknet.Prelude.{
  ℕ, zero, suc, ◌+◌, ◌-◌, ◌%◌, ◌^◌, Bool, true, false, List, [], ◌∷◌, Option, none, some, ltb, leb,
  ◌==◌, if◌then◌else◌,
}
use oif_starknet.Prelude.Int.{ℤ, pos, negsuc}
use oif_starknet.Prelude.Result.{Result, ok, err, panic, errorf, wrap}
use oif_starknet.Prelude.Text.{GoString, str_eq}
use oif_starknet.Listener.Base.{
  ListenerConfig, safe_block, processed, indexed, Events, blocks_before,
}

module _ (process_block_range : Events → ℕ → ℕ → Result ℕ) where
  -- The end of a range of the backfill.
  unfoldable pub backfill_end : ℕ → ℕ → ℕ → ℕ
  backfill_end chunk to_block start =
      let end = (start + chunk) % 2 ^ 64 in if ltb to_block end then to_block else end

  -- `bl.lastProcessedBlock = newLast` after each range; an error ends the loop.
  unfoldable pub after_backfill :
      Result ℕ
      → ℕ
      → ℕ
      → ℕ
      → Events
      → (ℕ → Events → Option (Result (Unit {0}) × ℕ × Events))
      → Option (Result (Unit {0}) × ℕ × Events)
  after_backfill (ok new_last) start end last h next =
      next new_last (indexed new_last ∷ processed start end ∷ h)
  after_backfill (err e) start end last h next =
      some (err (wrap "failed to process historical blocks" e), last, processed start end ∷ h)
  after_backfill (panic p) start end last h next = some (panic p, last, processed start end ∷ h)

  -- The loop of `CatchUpHistoricalBlocks` on fuel; `none` when there is not enough of it.
  unfoldable pub backfill_loop :
      ℕ → ℕ → ℕ → ℕ → ℕ → Events → Option (Result (Unit {0}) × ℕ × Events)
  unfolding backfill_end after_backfill
  backfill_loop zero chunk to_block start last h = none
  backfill_loop (suc fuel) chunk to_block start last h =
      let next = backfill_loop fuel chunk to_block ((start + chunk) % 2 ^ 64) in
      if ltb start to_block
      then after_backfill (process_block_range h start (backfill_end chunk to_block start)) start
          (backfill_end chunk to_block start) last h next
      else some (ok tt, last, h)

  -- `CatchUpHistoricalBlocks`, given the answer of `BlockNumber`: the result, the base listener's
  -- last processed block, and the events.
  unfoldable pub catch_up_historical_blocks :
      ℕ → ListenerConfig → Result ℕ → ℕ → Events → Option (Result (Unit {0}) × ℕ × Events)
  unfolding backfill_loop safe_block
  catch_up_historical_blocks fuel c (ok current) last h =
      let from_block = (last + 1) % 2 ^ 64 in
      let to_block = safe_block c.confirmation_blocks current in
      if leb to_block from_block
      then some (ok tt, last, h)
      else backfill_loop fuel c.max_block_range to_block from_block last h
  catch_up_historical_blocks fuel c (err e) last h =
      some (err (wrap "failed to get current block number" e), last, h)
  catch_up_historical_blocks fuel c (panic p) last h = some (panic p, last, h)

-- `MarkBlockFullyProcessed` of both listeners: the result, and the last processed block.
unfoldable pub mark_block_fully_processed : ℕ → ℕ → Result (Unit {0}) × ℕ
mark_block_fully_processed block_number last =
    if block_number == (last + 1) % 2 ^ 64
    then (ok tt, block_number)
    else (err (errorf "cannot mark block as processed"), last)
