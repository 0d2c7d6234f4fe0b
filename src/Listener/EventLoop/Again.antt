-- ===== src/Listener/EventLoop/Again.antt =====
-- The blocks that a listener's polling reads behind its backfill.
use oif_starknet.Prelude.{
  ℕ, suc, ◌+◌, ◌^◌, ◌≡◌, ◌<◌, ◌≤◌, ◌⊎◌, inl, inr, refl, ap, ◌∙◌, List, Option, none, some, arith,
}
use mathlib.Core.Path.{subst}
use oif_starknet.Prelude.Result.{Result, Error, ok, err}
use oif_starknet.Listener.Base.{ListenerConfig, Events, process_current_block_range}
use oif_starknet.Listener.Chunks.{Updates, events_of, process_current_block_range_lem}
use oif_starknet.Listener.CatchUp.Ranges.{Covered, catch_up_historical_blocks-Covered}
use oif_starknet.Listener.Resume.{Listener}
use oif_starknet.Listener.EventLoop.{with_base_block, with_own_block, catch_up, poll}
use oif_starknet.Listener.EventLoop.Rounds.{Tiles-Covered, confirmed}

module _ (process_block_range : Events → ℕ → ℕ → Result ℕ)
    (answers : (h : Events) (a b : ℕ)
      → (process_block_range h a b ≡ ok b)
        ⊎ ((e : Error) × (process_block_range h a b ≡ err e))) where
  -- Where an update succeeds over blocks behind the last one, each of them is in a range of it.
  update-Covered :
      (fuel current last reached n : ℕ) (c : ListenerConfig) (h h' : Events)
      → 0 < c.max_block_range
      → confirmed c current + c.max_block_range < 2 ^ 64
      → confirmed c current ≤ last + fuel
      → process_current_block_range process_block_range (suc fuel) c (ok current) last h
        ≡ some (ok tt, reached, h')
      → last < n
      → n ≤ confirmed c current
      → (tiles : List (ℕ × ℕ)) × (h' ≡ events_of tiles h) × Covered n tiles
  update-Covered fuel current last reached n c h h' positive small enough ended after within =
      by_end (
        process_current_block_range_lem process_block_range answers c.max_block_range
          (confirmed c current) positive small fuel current last c h refl refl (omega arith)
          (omega arith))
    where
      result : Option (Result (Unit {0}) × ℕ × Events)
      result = process_current_block_range process_block_range (suc fuel) c (ok current) last h

      same_events : (to : ℕ) (h'' : Events) → result ≡ some (ok tt, to, h'') → h' ≡ h''
      same_events to h'' p = cc

      never : (e : Error) (to : ℕ) (h'' : Events) → result ≡ some (err e, to, h'') → ⊥
      never e to h'' p = cc

      by_end :
          Updates process_block_range answers c.max_block_range
            (confirmed c current)
            positive
            small
            last
            h
            result
          → (tiles : List (ℕ × ℕ)) × (h' ≡ events_of tiles h) × Covered n tiles
      by_end (inl (old, p)) = absurd (omega (arith, old, after, within))
      by_end (inr (inl (tiles, t, p))) = (
        tiles,
        same_events _ _ p,
        Tiles-Covered c.max_block_range (last + 1) (confirmed c current) n tiles t
            (omega (arith, after)) within,
      )
      by_end (inr (inr (e, h'', p))) = absurd (never e _ h'' p)

module _ {A : Type 0} where
  -- A round that gave a listener: its blocks, and the rest of the listener as it was.
  with_base_block-inverse :
      (l l' : Listener A) (r : Option (Result (Unit {0}) × ℕ × Events)) (h : Events)
      → with_base_block l r ≡ some (ok tt, l', h)
      → (last : ℕ) × (r ≡ some (ok tt, last, h))
        × (l' ≡ record l { base_last_processed_block = last })
  unfolding with_base_block
  with_base_block-inverse l l' none h e = cc
  with_base_block-inverse l l' (some (r, last, h')) h e = (last, ground arith, ground arith)

  with_own_block-inverse :
      (l l' : Listener A) (r : Option (Result (Unit {0}) × ℕ × Events)) (h : Events)
      → with_own_block l r ≡ some (ok tt, l', h)
      → (last : ℕ) × (r ≡ some (ok tt, last, h))
  unfolding with_own_block
  with_own_block-inverse l l' none h e = cc
  with_own_block-inverse l l' (some (r, last, h')) h e = (last, ground arith)

  module _ (process_block_range : Events → ℕ → ℕ → Result ℕ)
      (answers : (h : Events) (a b : ℕ)
        → (process_block_range h a b ≡ ok b)
          ⊎ ((e : Error) × (process_block_range h a b ≡ err e))) where
    -- Suppose that reading a range returns the range's last block or an error, that a range may
    -- have at least one block, that the confirmed heights and a range's size together stay below
    -- 2^64, that there is fuel for one round per block, and that the height does not fall. If the backfill of a new
    -- listener succeeds and the first round of its polling does, then every block that the backfill
    -- had to read is read twice: in a range of the backfill, and again in a range of the polling.
    pub poll-catch_up-Covered :
        (fuel current current' n : ℕ) (l l1 l2 : Listener A) (h h1 h2 : Events)
        → 0 < l.config.max_block_range
        → confirmed l.config current + l.config.max_block_range < 2 ^ 64
        → confirmed l.config current' + l.config.max_block_range < 2 ^ 64
        → l.base_last_processed_block ≡ l.last_processed_block
        → l.last_processed_block + 1 < confirmed l.config current
        → confirmed l.config current ≤ confirmed l.config current'
        → confirmed l.config current' ≤ l.last_processed_block + fuel
        → catch_up process_block_range (suc fuel) (ok current) l h ≡ some (ok tt, l1, h1)
        → poll process_block_range (suc fuel) (ok current') l1 h1 ≡ some (ok tt, l2, h2)
        → l.last_processed_block < n
        → n ≤ confirmed l.config current
        → (ranges : List (ℕ × ℕ)) × (tiles : List (ℕ × ℕ)) × (h2
            ≡ events_of tiles (events_of ranges h))
          × Covered n ranges
          × Covered n tiles
    unfolding catch_up poll
    poll-catch_up-Covered fuel current current' n l l1 l2 h h1 h2 positive small small' fresh behind
          grows enough caught polled after within =
        let (base, caught', moved) = with_base_block-inverse l l1 _ h1 caught in
        let (own, polled') = with_own_block-inverse l1 l2 _ h2 polled in
        let (ranges, first, covered) =
          catch_up_historical_blocks-Covered process_block_range answers fuel current
            l.base_last_processed_block base n l.config h h1 positive small (omega arith)
            (omega arith) caught' (omega arith) within in
        let (tiles, second, covered') =
          update-Covered process_block_range answers fuel current' l.last_processed_block own n
            l.config h1 h2 positive small' enough
            (subst
              (λ (x : Listener A).
                process_current_block_range process_block_range (suc fuel) x.config (ok current')
                  x.last_processed_block h1
                ≡ some (ok tt, own, h2))
              moved polled')
            after (omega arith) in
        (ranges, tiles, second ∙ ap (events_of tiles) first, covered, covered')
