-- ===== src/Listener/EventLoop.antt =====
-- solver/solvercore/solvers/hyperlane7683/listener_evm.go and listener_starknet.go: the event loop
-- of a listener, which is the same in both. A round of the polling is an answer of `BlockNumber`,
-- and the loop ends with the answers; the pauses are left out.
pub mod Again
pub mod Rounds
use oif_starknet.Prelude.{ℕ, List, [], ◌∷◌, Option, none, some}
use oif_starknet.Prelude.Result.{Result, Panic, ok, err, panic}
use oif_starknet.Listener.Base.{Events, process_current_block_range}
use oif_starknet.Listener.CatchUp.{catch_up_historical_blocks}
use oif_starknet.Listener.Resume.{Listener}

module _ {A : Type 0} where
  -- The backfill moves the base listener's block, the polling the listener's own.
  unfoldable pub with_base_block :
      Listener A
      → Option (Result (Unit {0}) × ℕ × Events)
      → Option (Result (Unit {0}) × Listener A × Events)
  with_base_block l none = none
  with_base_block l (some (r, last, h)) = some (r, record l { base_last_processed_block = last }, h)

  unfoldable pub with_own_block :
      Listener A
      → Option (Result (Unit {0}) × ℕ × Events)
      → Option (Result (Unit {0}) × Listener A × Events)
  with_own_block l none = none
  with_own_block l (some (r, last, h)) = some (r, record l { last_processed_block = last }, h)

  -- An error is printed; a panic ends the goroutine.
  unfoldable pub after_round :
      Option (Result (Unit {0}) × Listener A × Events)
      → (Listener A → Events → Option (Option Panic × Listener A × Events))
      → Option (Option Panic × Listener A × Events)
  after_round none next = none
  after_round (some (ok t, l, h)) next = next l h
  after_round (some (err e, l, h)) next = next l h
  after_round (some (panic p, l, h)) next = some (some p, l, h)

  module _ (process_block_range : Events → ℕ → ℕ → Result ℕ) where
    -- `catchUpHistoricalBlocks`
    unfoldable pub catch_up :
        ℕ → Result ℕ → Listener A → Events → Option (Result (Unit {0}) × Listener A × Events)
    unfolding with_base_block catch_up_historical_blocks
    catch_up fuel current l h = with_base_block l (
        catch_up_historical_blocks process_block_range fuel l.config current
          l.base_last_processed_block h)

    -- `processCurrentBlockRange`
    unfoldable pub poll :
        ℕ → Result ℕ → Listener A → Events → Option (Result (Unit {0}) × Listener A × Events)
    unfolding with_own_block process_current_block_range
    poll fuel current l h = with_own_block l (
        process_current_block_range process_block_range fuel l.config current l.last_processed_block
          h)

    -- `startPolling`
    unfoldable pub start_polling :
        ℕ → List (Result ℕ) → Listener A → Events → Option (Option Panic × Listener A × Events)
    unfolding after_round poll
    start_polling fuel [] l h = some (none, l, h)
    start_polling fuel (current ∷ rest) l h =
        after_round (poll fuel current l h) (start_polling fuel rest)

    -- `startEventLoop`, given the answers of `BlockNumber` for the backfill and for the polling.
    unfoldable pub start_event_loop :
        ℕ
        → Result ℕ
        → List (Result ℕ)
        → Listener A
        → Events
        → Option (Option Panic × Listener A × Events)
    unfolding catch_up start_polling
    start_event_loop fuel current heights l h =
        after_round (catch_up fuel current l h) (start_polling fuel heights)
