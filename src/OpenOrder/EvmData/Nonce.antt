-- ===== src/OpenOrder/EvmData/Nonce.antt =====
-- The nonce of an order is the first that the contract accepts.
use oif_starknet.Prelude.{
  ℕ, zero, suc, ◌+◌, ◌≡◌, ◌<◌, ◌≤◌, refl, sym, ap, Bool, true, false, arith, ltb, ◌↔◌, inl, inr,
  Bool-cases,
}
use oif_starknet.Prelude.Result.{Result, ok, err, panic, ◌>>=◌}
use oif_starknet.OpenOrder.EvmData.{first_nonce, probe_nonces, pick_valid_sender_nonce}

data Answer (r : Result Bool) : Type 0 where
  accepted : r ≡ ok true → Answer r
  refused : r ≡ ok false → Answer r
  no_answer :
      ((n : ℕ) (f : Bool → Result ℕ) → ¬ ((r >>= f) ≡ ok n))
      → ¬ (r ≡ ok false)
      → ¬ (r ≡ ok true)
      → Answer r

answer : (r : Result Bool) → Answer r
answer (ok true) = accepted refl
answer (ok false) = refused refl
answer (err e) = no_answer (λ n f h. cc) (λ h. cc) (λ h. cc)
answer (panic p) = no_answer (λ n f h. cc) (λ h. cc) (λ h. cc)

ok_injective : {A : Type 0} (a b : A) → ok a ≡ ok b → a ≡ b
ok_injective a b h = cc

module _ (is_valid_nonce : ℕ → Result Bool) where
  -- The contract accepts the nonce, and refuses each one from the start up to it.
  abbrev pub FirstFrom : ℕ → ℕ → Type 0
  FirstFrom start n =
      (is_valid_nonce n ≡ ok true) × ((k : ℕ) → start ≤ k → k < n → is_valid_nonce k ≡ ok false)

  probe_nonces-FirstFrom :
      (rounds start n : ℕ)
      → probe_nonces is_valid_nonce rounds start ≡ ok n
      → (start ≤ n) × (n < start + rounds) × FirstFrom start n
  unfolding probe_nonces
  probe_nonces-FirstFrom zero start n h = cc
  probe_nonces-FirstFrom (suc rounds) start n h = elim (answer (is_valid_nonce start)) [
    | accepted e ↦
        let same : start ≡ n = ok_injective start n (rw e at h) in
        (omega arith, omega arith, (rw (sym same) e, λ k low high. absurd (omega arith)))
    | refused e ↦
        let (low, high, (valid, before)) =
          probe_nonces-FirstFrom rounds (start + 1) n (rw e at h) in
        (omega arith, omega arith, (valid, λ k at_least below. earlier k e before at_least below))
    | no_answer none_of not_false not_true ↦ absurd (none_of n _ h)
  ]
    where
      earlier :
          (k : ℕ)
          → is_valid_nonce start ≡ ok false
          → ((k : ℕ) → start + 1 ≤ k → k < n → is_valid_nonce k ≡ ok false)
          → start ≤ k
          → k < n
          → is_valid_nonce k ≡ ok false
      earlier k e before at_least below = elim (Bool-cases (ltb start k)) [
        | inl later ↦ before k (ground arith) below
        | inr first ↦ let same : start ≡ k = ground arith in rw (sym same) e
      ]

  FirstFrom-probe_nonces :
      (rounds start n : ℕ)
      → start ≤ n
      → n < start + rounds
      → FirstFrom start n
      → probe_nonces is_valid_nonce rounds start ≡ ok n
  unfolding probe_nonces
  FirstFrom-probe_nonces zero start n low high h = absurd (omega arith)
  FirstFrom-probe_nonces (suc rounds) start n low high h = elim (Bool-cases (ltb start n)) [
    | inl later ↦ rw (h.1 start (omega arith) (ground arith)) (
        FirstFrom-probe_nonces rounds (start + 1) n (ground arith) (omega arith)
          (h.0, λ k at_least below. h.1 k (omega arith) below))
    | inr first ↦
        let same : n ≡ start = ground arith in
        let valid : is_valid_nonce start ≡ ok true = rw same at h.0 in rw valid (ap ok (sym same))
  ]

  -- A nonce is picked exactly if the contract accepts it and refuses all between the start and it,
  -- and it is among the thousand from the start.
  pub pick_valid_sender_nonce_iff :
      (now n : ℕ)
      → (pick_valid_sender_nonce is_valid_nonce now ≡ ok n)
        ↔ ((first_nonce now ≤ n) × (n < first_nonce now + 1000) × FirstFrom (first_nonce now) n)
  unfolding pick_valid_sender_nonce
  pick_valid_sender_nonce_iff now n = (
    probe_nonces-FirstFrom 1000 (first_nonce now) n,
    λ h. FirstFrom-probe_nonces 1000 (first_nonce now) n h.0 h.1 h.2,
  )
