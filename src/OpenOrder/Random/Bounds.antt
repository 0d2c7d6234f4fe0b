-- ===== src/OpenOrder/Random/Bounds.antt =====
-- A draw is within its bounds.
use oif_starknet.Prelude.{
  ℕ, ◌+◌, ◌*◌, ◌%◌, ◌^◌, ◌≡◌, ◌<◌, ◌≤◌, refl, false, [], ◌∷◌, Option, none, some, arith, ◌==◌,
  lt→ltb,
}
use oif_starknet.Prelude.Int.{ℤ, pos}
use oif_starknet.Prelude.Text.{Bytes}
use oif_starknet.OpenOrder.Random.{
  Draw, random_loop, absolute, drawn_or_time, secure_random_int, create_token_amount, random_tokens,
  random_delta,
}

-- The bytes are not those of the least `int64`, and the time is not before 1970.
abbrev pub IsDraw : Draw → Type 0
IsDraw d =
    ((b : Bytes) → d.bytes ≡ some b → ¬ (random_loop 0 b ≡ 2 ^ 63))
    × ((t : ℕ) × (d.unix_nano ≡ pos t))

random_loop-lt : (r : ℕ) (b : Bytes) → r < 2 ^ 64 → random_loop r b < 2 ^ 64
unfolding random_loop
random_loop-lt r [] h = h
random_loop-lt r (x ∷ b) h = random_loop-lt ((r * 256 + x) % 2 ^ 64) b (omega arith)

absolute-lt : (r : ℕ) → r < 2 ^ 64 → ¬ (r ≡ 2 ^ 63) → absolute r < 2 ^ 63
unfolding absolute
absolute-lt r h least = ground arith

-- A number below a bound.
abbrev pub Within : ℕ → ℤ → Type 0
Within m z = (n : ℕ) × (z ≡ pos n) × (n < m)

drawn_or_time-Within :
    (m : ℕ) (bytes : Option Bytes) (unix_nano : ℤ)
    → 0 < m
    → IsDraw (record { bytes = bytes; unix_nano = unix_nano })
    → Within m (drawn_or_time m bytes unix_nano)
unfolding drawn_or_time
drawn_or_time-Within m none unix_nano h (bytes_ok, (t, now)) = (t % m, rw now refl, omega arith)
drawn_or_time-Within m (some b) unix_nano h (bytes_ok, (t, now)) =
    let r = random_loop 0 b in
    let small = absolute-lt r (random_loop-lt 0 b (omega arith)) (bytes_ok b refl) in
    (absolute r % m, rw (lt→ltb (absolute r) (2 ^ 63) small) refl, omega arith)

-- Unless the bytes are those of the least `int64`, a draw is from 0 to below the bound.
pub secure_random_int-Within :
    (m : ℕ) (d : Draw) → 0 < m → IsDraw d → Within m (secure_random_int m d)
unfolding secure_random_int
secure_random_int-Within m d h draw =
    let positive : (m == 0) ≡ false = ground arith in
    rw positive (drawn_or_time-Within m d.bytes d.unix_nano h draw)

-- So many whole tokens.
pub random_tokens-bounds :
    (d : Draw) → IsDraw d → (n : ℕ) × (random_tokens d ≡ n * 10 ^ 18) × (100 ≤ n) × (n ≤ 10000)
unfolding random_tokens create_token_amount
random_tokens-bounds d draw =
    let (k, e, h) = secure_random_int-Within 9901 d (omega arith) draw in
    (k + 100, rw e (omega arith), omega arith, omega arith)

pub random_delta-bounds :
    (d : Draw) → IsDraw d → (n : ℕ) × (random_delta d ≡ pos n) × (1 ≤ n) × (n ≤ 10)
unfolding random_delta
random_delta-bounds d draw =
    let (k, e, h) = secure_random_int-Within 10 d (omega arith) draw in
    (k + 1, rw e refl, omega arith, omega arith)
