-- ===== src/Listener/EventLoop/Rounds.antt =====
-- What the event loop does to the listener, and which blocks it reads.
use oif_starknet.Prelude.{
  ℕ, suc, ◌+◌, ◌^◌, ◌≡◌, ◌<◌, ◌≤◌, ◌⊎◌, inl, inr, refl, ap, List, [], ◌∷◌, Option, none, some, leb,
  arith, tests, All, Bool-cases,
}
use oif_starknet.Prelude.Result.{Result, Error, Panic, ok, err, panic}
use oif_starknet.Listener.Base.{ListenerConfig, safe_block, Events}
use oif_starknet.Listener.Chunks.{Tiles, Updates, process_current_block_range_lem}
use oif_starknet.Listener.CatchUp.{catch_up_historical_blocks}
use oif_starknet.Listener.CatchUp.Ranges.{Covered, CatchesUp, catch_up_historical_blocks_lem}
use oif_starknet.Listener.Base.{process_current_block_range}
use oif_starknet.Listener.Resume.{Listener}
use oif_starknet.Listener.EventLoop.{
  with_base_block, with_own_block, after_round, catch_up, poll, start_polling, start_event_loop,
}

Tiles-le : (chunk from to : ℕ) (tiles : List (ℕ × ℕ)) → Tiles chunk from to tiles → from ≤ to + 1
Tiles-le chunk from to [] t = omega (arith, t)
Tiles-le chunk from to ((a, b) ∷ rest) (e, l, m, k, t) = omega (arith, e, l, m)

pub Tiles-Covered :
    (chunk from to n : ℕ) (tiles : List (ℕ × ℕ))
    → Tiles chunk from to tiles
    → from ≤ n
    → n ≤ to
    → Covered n tiles
Tiles-Covered chunk from to n [] t h k = absurd (omega (arith, t))
Tiles-Covered chunk from to n ((a, b) ∷ rest) (e, l, m, k, t) h1 h2 = elim (Bool-cases (leb n b)) [
  | inl q ↦ inl (omega (arith, e, h1), omega (tests, q))
  | inr q ↦ inr (Tiles-Covered chunk (b + 1) to n rest t (ground arith) h2)
]

safe_block-le : (confirmations current : ℕ) → safe_block confirmations current ≤ current
unfolding safe_block
safe_block-le confirmations current = ground arith

abbrev pub confirmed : ListenerConfig → ℕ → ℕ
confirmed c current = safe_block c.confirmation_blocks current

confirmed-small :
    (c : ListenerConfig) (limit current : ℕ)
    → limit + c.max_block_range < 2 ^ 64
    → current ≤ limit
    → confirmed c current + c.max_block_range < 2 ^ 64
confirmed-small c limit current small h =
    omega (arith, h, small, safe_block-le c.confirmation_blocks current)

-- An answer of `BlockNumber`: a height up to a limit, or an error.
abbrev pub Height : ℕ → Result ℕ → Type 0
Height limit (ok n) = n ≤ limit
Height limit (err e) = Unit
Height limit (panic p) = ⊥

module _ {A : Type 0} (process_block_range : Events → ℕ → ℕ → Result ℕ)
    (answers : (h : Events) (a b : ℕ)
      → (process_block_range h a b ≡ ok b) ⊎ ((e : Error) × (process_block_range h a b ≡ err e)))
    (c : ListenerConfig) (limit : ℕ) (positive : 0 < c.max_block_range)
    (small : limit + c.max_block_range < 2 ^ 64) where
  -- The listener has its configuration, and a block that is not before another and not past the
  -- limit.
  abbrev pub Moves : ℕ → Listener A → Type 0
  Moves last l =
      (l.config ≡ c)
      × (last ≤ l.last_processed_block)
      × (l.last_processed_block ≤ limit)
      × (l.base_last_processed_block ≤ limit)

  abbrev pub MovesTo : ℕ → Option (Result (Unit {0}) × Listener A × Events) → Type 0
  MovesTo last none = ⊥
  MovesTo last (some (ok t, l, h)) = Moves last l
  MovesTo last (some (err e, l, h)) = Moves last l
  MovesTo last (some (panic p, l, h)) = ⊥

  poll-MovesTo :
      (fuel last : ℕ) (current : Result ℕ) (l : Listener A) (h : Events)
      → limit ≤ fuel
      → Height limit current
      → Moves last l
      → MovesTo last (poll process_block_range (suc fuel) current l h)
  unfolding poll with_own_block process_current_block_range
  poll-MovesTo fuel last (ok current) l h enough height (same, low, high, base) =
      by_update
        (process_current_block_range process_block_range (suc fuel) l.config (ok current)
          l.last_processed_block h)
        (unfold with_own_block in
          process_current_block_range_lem process_block_range answers c.max_block_range
            (confirmed c current) positive (confirmed-small c limit current small height) fuel
            current l.last_processed_block l.config h
            (ap (λ (x : ListenerConfig). x.max_block_range) same)
            (ap (λ (x : ListenerConfig). safe_block x.confirmation_blocks current) same)
            (omega (arith, high, small, positive))
            (omega (arith, height, enough, safe_block-le c.confirmation_blocks current)))
    where
      by_update :
          (r : Option (Result (Unit {0}) × ℕ × Events))
          → Updates process_block_range answers c.max_block_range
              (confirmed c current)
              positive
              (confirmed-small c limit current small height)
              l.last_processed_block
              h
              r
          → MovesTo last (with_own_block l r)
      by_update r (inl (old, e)) = rw e (same, low, high, base)
      by_update r (inr (inl (tiles, t, e))) = rw e (
        same,
        omega (arith, low, Tiles-le _ _ _ tiles t),
        omega (arith, height, safe_block-le c.confirmation_blocks current),
        base,
      )
      by_update r (inr (inr (x, h', e))) = rw e (same, low, high, base)
  poll-MovesTo fuel last (err e) l h enough height m = m
  poll-MovesTo fuel last (panic p) l h enough height m = absurd height

  catch_up-MovesTo :
      (fuel : ℕ) (current : Result ℕ) (l : Listener A) (h : Events)
      → limit ≤ fuel
      → Height limit current
      → Moves l.last_processed_block l
      → MovesTo l.last_processed_block (catch_up process_block_range (suc fuel) current l h)
  unfolding catch_up with_base_block catch_up_historical_blocks
  catch_up-MovesTo fuel (ok current) l h enough height (same, low, high, base) =
      by_end
        (catch_up_historical_blocks process_block_range (suc fuel) l.config (ok current)
          l.base_last_processed_block h)
        (catch_up_historical_blocks_lem process_block_range answers c.max_block_range
          (confirmed c current) positive (confirmed-small c limit current small height) fuel current
          l.base_last_processed_block l.config h
          (ap (λ (x : ListenerConfig). x.max_block_range) same)
          (ap (λ (x : ListenerConfig). safe_block x.confirmation_blocks current) same)
          (omega (arith, base, small, positive))
          (omega (arith, height, enough, safe_block-le c.confirmation_blocks current)))
    where
      by_end :
          (r : Option (Result (Unit {0}) × ℕ × Events))
          → CatchesUp process_block_range answers c.max_block_range
              (confirmed c current)
              positive
              (confirmed-small c limit current small height)
              l.base_last_processed_block
              h
              r
          → MovesTo l.last_processed_block (with_base_block l r)
      by_end r (inl (old, e)) = rw e (same, low, high, base)
      by_end r (inr (inl (ranges, o, e))) =
          rw e (same, low, high, omega (arith, height, safe_block-le c.confirmation_blocks current))
      by_end r (inr (inr (x, reached, h', l1, l2, e))) =
          rw e (
            same,
            low,
            high,
            omega (arith, l2, height, safe_block-le c.confirmation_blocks current),
          )
  catch_up-MovesTo fuel (err e) l h enough height m = m
  catch_up-MovesTo fuel (panic p) l h enough height m = absurd height

  -- How a loop ends: without a panic, and with a listener that has moved.
  abbrev pub EndsMoved : ℕ → Option (Option Panic × Listener A × Events) → Type 0
  EndsMoved last r =
      (l' : Listener A) × (h' : Events) × (r ≡ some (none, l', h'))
      × (l'.config ≡ c)
      × (last ≤ l'.last_processed_block)
      × (l'.last_processed_block ≤ limit)

  after_round-EndsMoved :
      (last : ℕ) (r : Option (Result (Unit {0}) × Listener A × Events))
      (next : Listener A → Events → Option (Option Panic × Listener A × Events))
      → MovesTo last r
      → ((l : Listener A) (h : Events) → Moves last l → EndsMoved last (next l h))
      → EndsMoved last (after_round r next)
  unfolding after_round
  after_round-EndsMoved last none next m more = absurd m
  after_round-EndsMoved last (some (ok t, l, h)) next m more = more l h m
  after_round-EndsMoved last (some (err e, l, h)) next m more = more l h m
  after_round-EndsMoved last (some (panic p, l, h)) next m more = absurd m

  start_polling-EndsMoved :
      (fuel last : ℕ) (heights : List (Result ℕ)) (l : Listener A) (h : Events)
      → limit ≤ fuel
      → All (Height limit) heights
      → Moves last l
      → EndsMoved last (start_polling process_block_range (suc fuel) heights l h)
  unfolding start_polling
  start_polling-EndsMoved fuel last [] l h enough bounded (same, low, high, base) =
      (l, h, refl, same, low, high)
  start_polling-EndsMoved fuel last (current ∷ rest) l h enough bounded m =
      after_round-EndsMoved last _ _ (poll-MovesTo fuel last current l h enough bounded.0 m)
        λ l' h' m'. start_polling-EndsMoved fuel last rest l' h' enough bounded.1 m'

  -- Suppose that reading a range returns the range's last block or an error, that a range may have
  -- at least one block, that every height is at most a limit, which with a range's size stays below
  -- 2^64, and that a listener starts at a block that is not past it. With fuel for one round per
  -- block, the event loop goes through all answers without a panic, whichever of them and of the
  -- ranges fail; the listener's last processed block never goes back, nor past the limit, and its
  -- configuration stays.
  pub start_event_loop-EndsMoved :
      (fuel : ℕ) (current : Result ℕ) (heights : List (Result ℕ)) (l : Listener A) (h : Events)
      → limit ≤ fuel
      → Height limit current
      → All (Height limit) heights
      → l.config ≡ c
      → l.last_processed_block ≤ limit
      → l.base_last_processed_block ≤ limit
      → EndsMoved l.last_processed_block
          (start_event_loop process_block_range (suc fuel) current heights l h)
  unfolding start_event_loop
  start_event_loop-EndsMoved fuel current heights l h enough height bounded same high base =
      after_round-EndsMoved l.last_processed_block _ _
        (catch_up-MovesTo fuel current l h enough height (same, omega arith, high, base))
        λ l' h' m.
          start_polling-EndsMoved fuel l.last_processed_block heights l' h' enough bounded m
