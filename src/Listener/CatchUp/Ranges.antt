-- ===== src/Listener/CatchUp/Ranges.antt =====
-- The ranges that a backfill reads.
use oif_starknet.Prelude.{
  ℕ, zero, suc, ◌+◌, ◌%◌, ◌^◌, ◌≡◌, ◌<◌, ◌≤◌, ◌⊎◌, inl, inr, refl, ap, ◌∙◌, true, false, List, [],
  ◌∷◌, Option, some, ltb, leb, if_cases, arith, tests, Bool-cases,
}
use oif_starknet.Prelude.Result.{Result, Error, ok, err}
use oif_starknet.Listener.Base.{ListenerConfig, safe_block, processed, indexed, Events}
use oif_starknet.Listener.Chunks.{events_of}
use oif_starknet.Listener.CatchUp.{
  backfill_end, after_backfill, backfill_loop, catch_up_historical_blocks,
}

-- Ranges of `chunk + 1` blocks, each from the last block of the one before it, up to a block that
-- the last range is cut off at.
abbrev pub Overlapping : ℕ → ℕ → ℕ → List (ℕ × ℕ) → Type 0
Overlapping chunk from to [] = to ≤ from
Overlapping chunk from to ((a, b) ∷ rest) =
    (a ≡ from)
    × (a < to)
    × (b ≤ to)
    × ((b ≡ a + chunk) ⊎ (b ≡ to))
    × Overlapping chunk (a + chunk) to rest

-- A block is in one of the ranges.
abbrev pub Covered : ℕ → List (ℕ × ℕ) → Type 0
Covered n [] = ⊥
Covered n ((a, b) ∷ rest) = ((a ≤ n) × (n ≤ b)) ⊎ Covered n rest

module _ (process_block_range : Events → ℕ → ℕ → Result ℕ)
    (answers : (h : Events) (a b : ℕ)
      → (process_block_range h a b ≡ ok b) ⊎ ((e : Error) × (process_block_range h a b ≡ err e)))
    (chunk to_block : ℕ) (positive : 0 < chunk) (small : to_block + chunk < 2 ^ 64) where
  -- The two ways that the loop ends from a block below the last one.
  abbrev pub Ends : ℕ → ℕ → Events → Option (Result (Unit {0}) × ℕ × Events) → Type 0
  Ends start last h r =
      ((ranges : List (ℕ × ℕ)) × Overlapping chunk start to_block ranges
        × (r ≡ some (ok tt, to_block, events_of ranges h)))
      ⊎ ((e : Error) × (reached : ℕ) × (h' : Events) × (last ≤ reached)
          × (reached ≤ to_block)
          × (r ≡ some (err e, reached, h')))

  backfill_end_lem :
      (start : ℕ)
      → start < to_block
      → (start ≤ backfill_end process_block_range chunk to_block start)
        × (backfill_end process_block_range chunk to_block start ≤ to_block)
        × (backfill_end process_block_range chunk to_block start ≤ start + chunk)
        × ((backfill_end process_block_range chunk to_block start ≡ start + chunk)
            ⊎ (backfill_end process_block_range chunk to_block start ≡ to_block))
  unfolding backfill_end
  backfill_end_lem start h = ground arith

  backfill_loop_step :
      (fuel start last : ℕ) (h : Events)
      → start < to_block
      → backfill_loop process_block_range (suc fuel) chunk to_block start last h
        ≡ after_backfill process_block_range
            (process_block_range h start (backfill_end process_block_range chunk to_block start))
            start
            (backfill_end process_block_range chunk to_block start)
            last
            h
            (backfill_loop process_block_range fuel chunk to_block (start + chunk))
  unfolding backfill_loop
  backfill_loop_step fuel start last h below =
      let no_wrap : (start + chunk) % 2 ^ 64 ≡ start + chunk = omega (arith, below, small) in
      let goes_on : ltb start to_block ≡ true = ground arith in rw (goes_on, no_wrap) refl

  backfill_loop_done :
      (fuel start last : ℕ) (h : Events)
      → to_block ≤ start
      → backfill_loop process_block_range (suc fuel) chunk to_block start last h
        ≡ some (ok tt, last, h)
  unfolding backfill_loop
  backfill_loop_done fuel start last h above =
      let ends : ltb start to_block ≡ false = ground arith in rw ends refl

  -- What a range that was read adds to what follows it.
  add_range :
      (fuel start end last : ℕ) (h : Events)
      → start < to_block
      → last ≤ start
      → (start ≤ end)
        × (end ≤ to_block)
        × (end ≤ start + chunk)
        × ((end ≡ start + chunk) ⊎ (end ≡ to_block))
      → (start + chunk < to_block
          → end ≤ start + chunk
          → Ends (start + chunk) end (indexed end ∷ processed start end ∷ h) (
              backfill_loop process_block_range
                (suc fuel)
                chunk
                to_block
                (start + chunk)
                end
                (indexed end ∷ processed start end ∷ h)))
      → Ends start last h (
          backfill_loop process_block_range
            (suc fuel)
            chunk
            to_block
            (start + chunk)
            end
            (indexed end ∷ processed start end ∷ h))
  add_range fuel start end last h below behind (h1, h2, h4, h3) next =
      elim (Bool-cases (ltb (start + chunk) to_block)) [
        | inl e ↦ more (next (ground arith) h4)
        | inr e ↦ last_range (ground arith)
      ]
    where
      h' : Events
      h' = indexed end ∷ processed start end ∷ h

      more :
          Ends
            (start + chunk)
            end
            h'
            (backfill_loop process_block_range (suc fuel) chunk to_block (start + chunk) end h')
          → Ends start last h
              (backfill_loop process_block_range (suc fuel) chunk to_block (start + chunk) end h')
      more (inl (ranges, o, p)) = inl ((start, end) ∷ ranges, (refl, below, h2, h3, o), p)
      more (inr (e, reached, h'', l1, l2, p)) =
          inr (e, reached, h'', omega (arith, l1, h1, behind), l2, p)

      last_range :
          to_block ≤ start + chunk
          → Ends start last h
              (backfill_loop process_block_range (suc fuel) chunk to_block (start + chunk) end h')
      last_range above =
          let ends : end ≡ to_block = omega (arith, h2, h3, above) in
          inl (
            (start, end) ∷ [],
            (refl, below, h2, h3, above),
            backfill_loop_done fuel (start + chunk) end h' above
                ∙ ap (λ x. some (ok tt, x, h')) ends,
          )

  backfill_loop_lem :
      (fuel start last : ℕ) (h : Events)
      → start < to_block
      → last ≤ start
      → to_block ≤ start + fuel
      → Ends start last h (backfill_loop process_block_range (suc fuel) chunk to_block start last h)
  unfolding after_backfill
  backfill_loop_lem zero start last h below behind enough = absurd (omega arith)
  backfill_loop_lem (suc fuel) start last h below behind enough =
      rw (backfill_loop_step (suc fuel) start last h below) (
        by_answer (backfill_end process_block_range chunk to_block start)
          (backfill_end_lem start below)
          (answers h start (backfill_end process_block_range chunk to_block start))
          λ end below' behind'.
            backfill_loop_lem fuel (start + chunk) end (indexed end ∷ processed start end ∷ h)
              below' behind' (omega (arith, positive, enough)))
    where
      by_answer :
          (end : ℕ)
          → (start ≤ end)
            × (end ≤ to_block)
            × (end ≤ start + chunk)
            × ((end ≡ start + chunk) ⊎ (end ≡ to_block))
          → (process_block_range h start end ≡ ok end)
            ⊎ ((e : Error) × (process_block_range h start end ≡ err e))
          → ((end : ℕ)
              → start + chunk < to_block
              → end ≤ start + chunk
              → Ends (start + chunk) end (indexed end ∷ processed start end ∷ h) (
                  backfill_loop process_block_range
                    (suc fuel)
                    chunk
                    to_block
                    (start + chunk)
                    end
                    (indexed end ∷ processed start end ∷ h)))
          → Ends start last h (
              after_backfill process_block_range
                (process_block_range h start end)
                start
                end
                last
                h
                (backfill_loop process_block_range (suc fuel) chunk to_block (start + chunk)))
      by_answer end bounds (inl p) next =
          rw p (add_range fuel start end last h below behind bounds (next end))
      by_answer end bounds (inr (e, p)) next =
          rw p (inr (_, last, _, omega arith, omega (arith, below, behind), refl))

  -- The three ways that a backfill ends.
  abbrev pub CatchesUp : ℕ → Events → Option (Result (Unit {0}) × ℕ × Events) → Type 0
  CatchesUp last h r =
      ((to_block ≤ last + 1) × (r ≡ some (ok tt, last, h)))
      ⊎ ((ranges : List (ℕ × ℕ)) × Overlapping chunk (last + 1) to_block ranges
          × (r ≡ some (ok tt, to_block, events_of ranges h)))
      ⊎ ((e : Error) × (reached : ℕ) × (h' : Events) × (last ≤ reached)
          × (reached ≤ to_block)
          × (r ≡ some (err e, reached, h')))

  -- Suppose that reading a range returns the range's last block or an error, that a range's size is
  -- positive, that the confirmed height and that size together stay below 2^64, as does the next
  -- block, and that there is fuel for one round per block. A backfill ends, in one of three ways. The
  -- confirmed height is at most the block behind the last processed one, and nothing changes. Or the blocks
  -- are read up to the confirmed height, which is then the last processed block, in ranges of one
  -- block more than the configured size, each from the last block of the one before it. Or it
  -- returns an error, and the last processed block has not gone back nor past the confirmed height.
  pub catch_up_historical_blocks_lem :
      (fuel current last : ℕ) (c : ListenerConfig) (h : Events)
      → c.max_block_range ≡ chunk
      → safe_block c.confirmation_blocks current ≡ to_block
      → last + 1 < 2 ^ 64
      → to_block ≤ last + 1 + fuel
      → CatchesUp last h
          (catch_up_historical_blocks process_block_range (suc fuel) c (ok current) last h)
  unfolding catch_up_historical_blocks
  catch_up_historical_blocks_lem fuel current last c h size height fits enough =
      let no_wrap : (last + 1) % 2 ^ 64 ≡ last + 1 = omega (arith, fits) in
      rw (size, height, no_wrap)
        (if_cases (CatchesUp last h) (leb to_block (last + 1)) _ _
          (λ e. inl (omega (tests, e), refl))
          λ e.
            by_loop _
              (backfill_loop_lem fuel (last + 1) last h (ground arith) (omega arith) enough))
    where
      by_loop : (r : _) → Ends (last + 1) last h r → CatchesUp last h r
      by_loop r (inl (ranges, o, p)) = inr (inl (ranges, o, p))
      by_loop r (inr q) = inr (inr q)

-- The ranges of a backfill leave no block out.
pub Overlapping-Covered :
    (chunk from to n : ℕ) (ranges : List (ℕ × ℕ))
    → Overlapping chunk from to ranges
    → from < to
    → from ≤ n
    → n ≤ to
    → Covered n ranges
Overlapping-Covered chunk from to n [] o h1 h2 h3 = absurd (omega (arith, o))
Overlapping-Covered chunk from to n ((a, b) ∷ rest) (q, below, b1, b2, o) h1 h2 h3 =
    elim (Bool-cases (leb n b)) [
      | inl e ↦ inl (omega (arith, q, h2), omega (tests, e))
      | inr e ↦
          inr (Overlapping-Covered chunk (a + chunk) to n rest o (ground arith) (ground arith) h3)
    ]

-- Under the same suppositions, when a backfill with at least two blocks before it ends without an
-- error, each of those blocks was in one of the ranges that it read.
pub catch_up_historical_blocks-Covered :
    (process_block_range : Events → ℕ → ℕ → Result ℕ)
    (answers : (h : Events) (a b : ℕ)
      → (process_block_range h a b ≡ ok b) ⊎ ((e : Error) × (process_block_range h a b ≡ err e)))
    (fuel current last reached n : ℕ) (c : ListenerConfig) (h h' : Events)
    → 0 < c.max_block_range
    → safe_block c.confirmation_blocks current + c.max_block_range < 2 ^ 64
    → last + 1 < safe_block c.confirmation_blocks current
    → safe_block c.confirmation_blocks current ≤ last + 1 + fuel
    → catch_up_historical_blocks process_block_range (suc fuel) c (ok current) last h
      ≡ some (ok tt, reached, h')
    → last < n
    → n ≤ safe_block c.confirmation_blocks current
    → (ranges : List (ℕ × ℕ)) × (h' ≡ events_of ranges h) × Covered n ranges
catch_up_historical_blocks-Covered process_block_range answers fuel current last reached n c h h'
      positive small behind enough ended after within =
    by_end (
      catch_up_historical_blocks_lem process_block_range answers c.max_block_range
        (safe_block c.confirmation_blocks current) positive small fuel current last c h refl refl
        (omega (arith, small, behind)) enough)
  where
    result : Option (Result (Unit {0}) × ℕ × Events)
    result = catch_up_historical_blocks process_block_range (suc fuel) c (ok current) last h

    same_events : (to : ℕ) (h'' : Events) → result ≡ some (ok tt, to, h'') → h' ≡ h''
    same_events to h'' p = cc

    never : (e : Error) (to : ℕ) (h'' : Events) → result ≡ some (err e, to, h'') → ⊥
    never e to h'' p = cc

    by_end :
        CatchesUp process_block_range answers c.max_block_range
          (safe_block c.confirmation_blocks current)
          positive
          small
          last
          h
          result
        → (ranges : List (ℕ × ℕ)) × (h' ≡ events_of ranges h) × Covered n ranges
    by_end (inl (up_to_date, p)) = absurd (omega (arith, up_to_date, behind))
    by_end (inr (inl (ranges, o, p))) = (
      ranges,
      same_events _ _ p,
      Overlapping-Covered c.max_block_range (last + 1) (safe_block c.confirmation_blocks current) n
          ranges o behind (omega (arith, after)) within,
    )
    by_end (inr (inr (e, r, h'', l1, l2, p))) = absurd (never e r h'' p)
