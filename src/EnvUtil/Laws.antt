-- ===== src/EnvUtil/Laws.antt =====
-- The getters read the live or the local variable, and their numbers fit their types.
use oif_starknet.Prelude.{
  ℕ, ◌≡◌, ◌<◌, ◌^◌, refl, List, [], ◌∷◌, ◌++◌, Option, none, some, if◌then◌else◌, Bool-cases, inl,
  inr,
}
use oif_starknet.Prelude.Text.{GoString}
use oif_starknet.Prelude.Scan.{scan_uint64, scan_uint64-lt}
use oif_starknet.EnvUtil.{
  Env, local_prefix, or_parsed, is_devnet, get_conditional_uint64, get_env_uint64,
  get_env_uint64_any,
}

or_parsed-lt :
    (m d : ℕ) (parse : GoString → Option ℕ)
    → ((s : GoString) (n : ℕ) → parse s ≡ some n → n < m)
    → d < m
    → (s : GoString) → or_parsed parse d s < m
unfolding or_parsed
or_parsed-lt m d parse fits h [] = h
or_parsed-lt m d parse fits h (c ∷ s) = below (parse (c ∷ s)) (fits (c ∷ s))
  where
    below : (o : Option ℕ) → ((n : ℕ) → o ≡ some n → n < m) → elim o [ none ↦ d | some n ↦ n ] < m
    below none f = h
    below (some n) f = f n refl

module _ (getenv : Env) where
  -- The conditional getter is the plain getter, on the local variable and the local default in
  -- devnet mode, and on the live variable and the live default otherwise.
  pub get_conditional_uint64-eq-get_env_uint64 :
      (key : GoString) (live local' : ℕ)
      → get_conditional_uint64 getenv key live local' ≡ (
          if is_devnet getenv
          then get_env_uint64 getenv (local_prefix ++ key) local'
          else get_env_uint64 getenv key live)
  unfolding get_conditional_uint64 get_env_uint64
  get_conditional_uint64-eq-get_env_uint64 key live local' = elim (Bool-cases (is_devnet getenv)) [
    | inl e ↦ rw (e, is_devnet)
    | inr e ↦ rw e
  ]

  -- A list of keys gives a number below 2^64, if the default is.
  pub get_env_uint64_any-lt :
      (keys : List GoString) (d : ℕ) → d < 2 ^ 64 → get_env_uint64_any getenv keys d < 2 ^ 64
  unfolding get_env_uint64_any
  get_env_uint64_any-lt [] d h = h
  get_env_uint64_any-lt (k ∷ rest) d h =
      or_parsed-lt (2 ^ 64) (get_env_uint64_any getenv rest d) scan_uint64 scan_uint64-lt
        (get_env_uint64_any-lt rest d h) (getenv k)
