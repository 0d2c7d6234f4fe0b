-- ===== src/Examples/Listening.antt =====
-- The reading of blocks, the backfill and the event loop.
use oif_starknet.Prelude.{ℕ, ◌≡◌, ◌⊎◌, inl, refl, List, [], ◌∷◌, some, arith}
use oif_starknet.Prelude.Int.{pos}
use oif_starknet.Prelude.Result.{Result, Error, ok, err, errorf}
use oif_starknet.Prelude.Text.{str}
use oif_starknet.Listener.Base.{ListenerConfig, Events, safe_block}
use oif_starknet.Listener.Chunks.{events_of}
use oif_starknet.Listener.CatchUp.{catch_up_historical_blocks}
use oif_starknet.Listener.CatchUp.Ranges.{
  CatchesUp, Covered, catch_up_historical_blocks_lem, catch_up_historical_blocks-Covered,
}
use oif_starknet.Listener.Resume.{Listener}
use oif_starknet.Listener.EventLoop.{catch_up, poll, start_event_loop}
use oif_starknet.Listener.EventLoop.Rounds.{EndsMoved, start_event_loop-EndsMoved}
use oif_starknet.Listener.EventLoop.Again.{poll-catch_up-Covered}
use oif_starknet.Listener.Blocks.Listeners.{EventHandler, EmittedEvent, OpenEvent, BoundOrder}

abbrev bound_order : BoundOrder
bound_order = record {
  user = 10 ∷ [];
  origin_chain_id = 1;
  open_deadline = 0;
  fill_deadline = 0;
  order_id = 10 ∷ [];
  max_spent = [];
  min_received = [];
  fill_instructions = [];
}

-- The handler keeps the blocks of its orders, the latest first, and refuses those of block 7.
abbrev handler : EventHandler (List ℕ)
handler args name block seen = (err (errorf "refused"), block ∷ seen)

-- A log is the number of its block.
abbrev parse_open : ℕ → Result OpenEvent
parse_open block =
    ok (record { order_id = 10 ∷ []; resolved_order = bound_order; block_number = block })

abbrev emitted : ℕ → EmittedEvent ℕ
emitted block = record { keys = 3 ∷ []; fields = 1 ∷ []; block_number = block }

abbrev listening : ListenerConfig
listening = record {
  contract_address = str "0x1";
  chain_name = str "Ethereum";
  initial_block = pos 3;
  poll_interval = pos 1000;
  confirmation_blocks = 5;
  max_block_range = 10;
}

abbrev always : Events → ℕ → ℕ → Result ℕ
always h a b = ok b

abbrev always_answers :
    (h : Events) (a b : ℕ) → (always h a b ≡ ok b) ⊎ ((e : Error) × (always h a b ≡ err e))
always_answers = λ h a b. inl refl

catch_up_historical_blocks_example :
    CatchesUp always always_answers 10 25
      (omega arith)
      (omega arith)
      3
      []
      (catch_up_historical_blocks always 31 listening (ok 30) 3 [])
unfolding safe_block
catch_up_historical_blocks_example =
    catch_up_historical_blocks_lem always always_answers 10 25 (omega arith) (omega arith) 30 30 3
      listening [] refl refl (omega arith) (omega arith)

abbrev caught_events : Events
caught_events = events_of ((4, 14) ∷ (14, 24) ∷ (24, 25) ∷ []) []

caught :
    catch_up_historical_blocks always 31 listening (ok 30) 3 [] ≡ some (ok tt, 25, caught_events)
unfolding catch_up_historical_blocks
caught = refl

catch_up_historical_blocks-Covered_example :
    (ranges : List (ℕ × ℕ)) × (caught_events ≡ events_of ranges []) × Covered 14 ranges
unfolding safe_block
catch_up_historical_blocks-Covered_example =
    catch_up_historical_blocks-Covered always always_answers 30 30 3 25 14 listening []
      caught_events (omega arith) (omega arith) (omega arith) (omega arith) caught (omega arith)
      (omega arith)

abbrev listener : Listener ℕ
listener = record {
  config = listening;
  contract_address = 1;
  last_processed_block = 3;
  base_last_processed_block = 3;
}

start_event_loop_example :
    EndsMoved always always_answers listening 50
      (omega arith)
      (omega arith)
      3
      (start_event_loop always 51 (ok 30) (ok 32 ∷ err (errorf "down") ∷ ok 40 ∷ []) listener [])
start_event_loop_example =
    start_event_loop-EndsMoved always always_answers listening 50 (omega arith) (omega arith) 50
      (ok 30) (ok 32 ∷ err (errorf "down") ∷ ok 40 ∷ []) listener [] (omega arith) (omega arith)
      (omega arith) refl (omega arith) (omega arith)

abbrev caught_listener : Listener ℕ
caught_listener = record listener { base_last_processed_block = 25 }

abbrev polled_listener : Listener ℕ
polled_listener = record caught_listener { last_processed_block = 27 }

abbrev polled_events : Events
polled_events = events_of ((4, 13) ∷ (14, 23) ∷ (24, 27) ∷ []) caught_events

catches_up : catch_up always 31 (ok 30) listener [] ≡ some (ok tt, caught_listener, caught_events)
unfolding catch_up
catches_up = refl

polls :
    poll always 31 (ok 32) caught_listener caught_events
    ≡ some (ok tt, polled_listener, polled_events)
unfolding poll
polls = refl

poll-catch_up-Covered_example :
    (ranges : List (ℕ × ℕ)) × (tiles : List (ℕ × ℕ)) × (polled_events
      ≡ events_of tiles (events_of ranges []))
    × Covered 14 ranges
    × Covered 14 tiles
unfolding safe_block
poll-catch_up-Covered_example =
    poll-catch_up-Covered always always_answers 30 30 32 14 listener caught_listener polled_listener
      [] caught_events polled_events (omega arith) (omega arith) (omega arith) refl (omega arith)
      (omega arith) (omega arith) catches_up polls (omega arith) (omega arith)
