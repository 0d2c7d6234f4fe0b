-- ===== src/Listener/Chunks.antt =====
-- The ranges that the listeners read.
use oif_starknet.Prelude.{
  ℕ, zero, suc, ◌+◌, ◌-◌, ◌%◌, ◌^◌, ◌≡◌, ◌<◌, ◌≤◌, ◌⊎◌, inl, inr, refl, ap, ◌∙◌, true, false, List,
  [], ◌∷◌, Option, some, ltb, leb, if◌then◌else◌, if_cases, arith, tests, Bool-cases,
}
use oif_starknet.Prelude.Int.{negsuc}
use oif_starknet.Prelude.Result.{Result, Error, ok, err}
use oif_starknet.Listener.Base.{
  ListenerConfig, blocks_before, from_current, resolve_solver_start_block, safe_block, processed,
  indexed, Events, chunk_end, after_chunk, chunk_loop, store_last, process_current_block_range,
}

-- A negative start block counts back from the chain's height, and stops at block 0.
pub resolve_solver_start_block_negative :
    (n current : ℕ)
    → current < 2 ^ 64
    → suc n ≤ 2 ^ 63
    → resolve_solver_start_block (negsuc n) (ok current) ≡ ok (current - suc n)
unfolding resolve_solver_start_block from_current blocks_before
resolve_solver_start_block_negative n current h k = ground arith

-- Ranges that cover the blocks from one to another in order, each block once, with at most `chunk`
-- blocks to a range.
abbrev pub Tiles : ℕ → ℕ → ℕ → List (ℕ × ℕ) → Type 0
Tiles chunk from to [] = from ≡ to + 1
Tiles chunk from to ((a, b) ∷ rest) =
    (a ≡ from) × (a ≤ b) × (b ≤ to) × (b < a + chunk) × Tiles chunk (b + 1) to rest

-- The events of reading ranges without an error: the end of each is recorded.
abbrev pub events_of : List (ℕ × ℕ) → Events → Events
events_of [] h = h
events_of ((a, b) ∷ rest) h = events_of rest (indexed b ∷ processed a b ∷ h)

module _ (process_block_range : Events → ℕ → ℕ → Result ℕ)
    (answers : (h : Events) (a b : ℕ)
      → (process_block_range h a b ≡ ok b) ⊎ ((e : Error) × (process_block_range h a b ≡ err e)))
    (chunk to_block : ℕ) (positive : 0 < chunk) (small : to_block + chunk < 2 ^ 64) where
  -- The two ways that the loop ends.
  abbrev pub Ends : ℕ → Events → Option (Result ℕ × Events) → Type 0
  Ends start h r =
      ((tiles : List (ℕ × ℕ)) × Tiles chunk start to_block tiles
        × (r ≡ some (ok to_block, events_of tiles h)))
      ⊎ ((e : Error) × (h' : Events) × (r ≡ some (err e, h')))

  chunk_end_lem :
      (start : ℕ)
      → start ≤ to_block
      → (start ≤ chunk_end process_block_range chunk to_block start)
        × (chunk_end process_block_range chunk to_block start ≤ to_block)
        × (chunk_end process_block_range chunk to_block start < start + chunk)
        × ((chunk_end process_block_range chunk to_block start ≡ to_block)
            ⊎ (chunk_end process_block_range chunk to_block start + 1 ≡ start + chunk))
  unfolding chunk_end
  chunk_end_lem start h = ground arith

  -- The loop behind the last range.
  chunk_loop_done :
      (fuel start last : ℕ) (h : Events)
      → to_block < start
      → chunk_loop process_block_range (suc fuel) chunk to_block start last h ≡ some (ok last, h)
  unfolding chunk_loop
  chunk_loop_done fuel start last h above = rw (lt→gt start above) refl
    where
      lt→gt : (start : ℕ) → to_block < start → leb start to_block ≡ false
      lt→gt start above = ground arith

  -- What a successful round adds to what follows it.
  add_tile :
      (fuel start end last : ℕ) (h : Events)
      → start ≤ end
      → end ≤ to_block
      → end < start + chunk
      → (end ≡ to_block) ⊎ (end + 1 ≡ start + chunk)
      → (start + chunk ≤ to_block
          → Ends (start + chunk) (indexed end ∷ processed start end ∷ h) (
              chunk_loop process_block_range
                (suc fuel)
                chunk
                to_block
                (start + chunk)
                end
                (indexed end ∷ processed start end ∷ h)))
      → Ends start h (
          chunk_loop process_block_range
            (suc fuel)
            chunk
            to_block
            (start + chunk)
            end
            (indexed end ∷ processed start end ∷ h))
  add_tile fuel start end last h h1 h2 h3 h4 next =
      elim (Bool-cases (leb (start + chunk) to_block)) [
        | inl e ↦ more (next (omega (tests, e))) e
        | inr e ↦ last_tile e
      ]
    where
      h' : Events
      h' = indexed end ∷ processed start end ∷ h

      goal : Type 0
      goal =
          Ends start h
            (chunk_loop process_block_range (suc fuel) chunk to_block (start + chunk) end h')

      tiles_from :
          (tiles : List (ℕ × ℕ))
          → end + 1 ≡ start + chunk
          → Tiles chunk (start + chunk) to_block tiles
          → Tiles chunk (end + 1) to_block tiles
      tiles_from tiles q t = rw q t

      more :
          Ends
            (start + chunk)
            h'
            (chunk_loop process_block_range (suc fuel) chunk to_block (start + chunk) end h')
          → leb (start + chunk) to_block ≡ true
          → goal
      more (inl (tiles, t, p)) e = inl (
        (start, end) ∷ tiles,
        (refl, h1, h2, h3, tiles_from tiles (omega (tests, e, h3, h4)) t),
        p,
      )
      more (inr q) e = inr q

      last_tile : leb (start + chunk) to_block ≡ false → goal
      last_tile e =
          let ends : end ≡ to_block = ground arith in
          inl (
            (start, end) ∷ [],
            (refl, h1, h2, h3, ap (λ x. x + 1) ends),
            chunk_loop_done fuel (start + chunk) end h' (ground arith)
                ∙ ap (λ x. some (ok x, h')) ends,
          )

  chunk_loop_step :
      (fuel start last : ℕ) (h : Events)
      → start ≤ to_block
      → chunk_loop process_block_range (suc fuel) chunk to_block start last h
        ≡ after_chunk process_block_range
            (process_block_range h start (chunk_end process_block_range chunk to_block start))
            start
            (chunk_end process_block_range chunk to_block start)
            h
            (chunk_loop process_block_range fuel chunk to_block (start + chunk))
  unfolding chunk_loop
  chunk_loop_step fuel start last h below =
      let no_wrap : (start + chunk) % 2 ^ 64 ≡ start + chunk = omega (arith, below, small) in
      let goes_on : leb start to_block ≡ true = ground arith in rw (goes_on, no_wrap) refl

  chunk_loop_lem :
      (fuel start last : ℕ) (h : Events)
      → start ≤ to_block
      → to_block < start + fuel
      → Ends start h (chunk_loop process_block_range (suc fuel) chunk to_block start last h)
  unfolding after_chunk chunk_loop
  chunk_loop_lem zero start last h below enough = absurd (omega arith)
  chunk_loop_lem (suc fuel) start last h below enough =
      rw (chunk_loop_step (suc fuel) start last h below) (
        by_answer (chunk_end process_block_range chunk to_block start) (chunk_end_lem start below)
          (answers h start (chunk_end process_block_range chunk to_block start))
          λ end below'.
            chunk_loop_lem fuel (start + chunk) end (indexed end ∷ processed start end ∷ h) below'
              (omega (arith, positive, enough)))
    where
      by_answer :
          (end : ℕ)
          → (start ≤ end)
            × (end ≤ to_block)
            × (end < start + chunk)
            × ((end ≡ to_block) ⊎ (end + 1 ≡ start + chunk))
          → (process_block_range h start end ≡ ok end)
            ⊎ ((e : Error) × (process_block_range h start end ≡ err e))
          → ((end : ℕ)
              → start + chunk ≤ to_block
              → Ends (start + chunk) (indexed end ∷ processed start end ∷ h) (
                  chunk_loop process_block_range
                    (suc fuel)
                    chunk
                    to_block
                    (start + chunk)
                    end
                    (indexed end ∷ processed start end ∷ h)))
          → Ends start h (
              after_chunk process_block_range
                (process_block_range h start end)
                start
                end
                h
                (chunk_loop process_block_range (suc fuel) chunk to_block (start + chunk)))
      by_answer end (h1, h2, h3, h4) (inl p) next =
          rw p (add_tile fuel start end end h h1 h2 h3 h4 (next end))
      by_answer end bounds (inr (e, p)) next = rw p (inr (_, _, refl))

  process_current_block_range_step :
      (fuel current last : ℕ) (c : ListenerConfig) (h : Events)
      → c.max_block_range ≡ chunk
      → safe_block c.confirmation_blocks current ≡ to_block
      → last + 1 < 2 ^ 64
      → process_current_block_range process_block_range fuel c (ok current) last h ≡ (
          if ltb to_block (last + 1)
          then some (ok tt, last, h)
          else store_last process_block_range last
              (chunk_loop process_block_range fuel chunk to_block (last + 1) last h))
  unfolding process_current_block_range
  process_current_block_range_step fuel current last c h size height fits =
      let no_wrap : (last + 1) % 2 ^ 64 ≡ last + 1 = omega (arith, fits) in
      simp (size, height, no_wrap)

  -- The three ways that an update ends.
  abbrev pub Updates : ℕ → Events → Option (Result (Unit {0}) × ℕ × Events) → Type 0
  Updates last h r =
      ((to_block ≤ last) × (r ≡ some (ok tt, last, h)))
      ⊎ ((tiles : List (ℕ × ℕ)) × Tiles chunk (last + 1) to_block tiles
          × (r ≡ some (ok tt, to_block, events_of tiles h)))
      ⊎ ((e : Error) × (h' : Events) × (r ≡ some (err e, last, h')))

  -- Suppose that reading a range returns the range's last block or an error, that a range may have
  -- at least one block, and that the confirmed height and a range's size together stay below 2^64,
  -- as does the next block. With fuel for one round per block, an update of a listener ends, in one
  -- of three ways. There is no new block, and nothing changes. Or the blocks behind the last
  -- processed one are read, each block once and in order, in ranges of at most the configured size,
  -- up to the confirmed height, which is then the last processed block. Or it returns an error, and
  -- the last processed block stays.
  pub process_current_block_range_lem :
      (fuel current last : ℕ) (c : ListenerConfig) (h : Events)
      → c.max_block_range ≡ chunk
      → safe_block c.confirmation_blocks current ≡ to_block
      → last + 1 < 2 ^ 64
      → to_block < last + 1 + fuel
      → Updates last h
          (process_current_block_range process_block_range (suc fuel) c (ok current) last h)
  unfolding store_last
  process_current_block_range_lem fuel current last c h size height fits enough =
      rw (process_current_block_range_step (suc fuel) current last c h size height fits) (
        if_cases (Updates last h) (ltb to_block (last + 1)) _ _ (λ e. inl (omega (tests, e), refl))
          λ e. by_loop _ (chunk_loop_lem fuel (last + 1) last h (ground arith) enough))
    where
      by_loop :
          (r : Option (Result ℕ × Events))
          → Ends (last + 1) h r
          → Updates last h (store_last process_block_range last r)
      by_loop r (inl (tiles, t, p)) = inr (inl (tiles, t, rw p refl))
      by_loop r (inr (e, h', p)) = inr (inr (e, h', rw p refl))
