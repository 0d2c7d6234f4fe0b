-- ===== src/OpenOrder/StarknetOrders/Built.antt =====
-- The random Starknet order.
use Prim.Native.String.{String}
use oif_starknet.Prelude.{
  ℕ, zero, suc, ◌+◌, ◌-◌, ◌*◌, ◌^◌, ◌≡◌, ◌<◌, ◌≤◌, refl, ◌∙◌, ap, true, List, [], ◌∷◌, arith, ltb,
  ◌==◌, length, Bool-cases, inl, inr,
}
use oif_starknet.Prelude.Int.{pos, neg, ◌+ℤ◌}
use oif_starknet.Prelude.Result.{ok}
use oif_starknet.Prelude.Text.{GoString, str, contains, to_lower}
use oif_starknet.Types.Address.{Geth}
use oif_starknet.Config.Networks.{Networks, get_network_names}
use oif_starknet.EnvUtil.{Env, or_default, get_conditional_env, get_env_with_default}
use oif_starknet.OpenOrder.Random.{Draw, create_token_amount}
use oif_starknet.OpenOrder.Random.Bounds.{IsDraw, secure_random_int-Within}
use oif_starknet.OpenOrder.EvmData.{get_starknet_alice_address}
use oif_starknet.OpenOrder.StarknetOrders.{
  StarknetOrderConfig, evm_destinations, name_at, get_alice_public_key, not_empty,
  get_random_destination_chain, get_alice_address_for_network, starknet_order, random_order,
  random_order_to, open_random_starknet_order,
}

name_at_lem :
    (names : List GoString) (i : ℕ)
    → i < length names
    → (name : GoString) × (name_at names (pos i) ≡ ok name)
unfolding name_at
name_at_lem [] i h = absurd (omega arith)
name_at_lem (n ∷ names) zero h = (n, refl)
name_at_lem (n ∷ names) (suc i) h = name_at_lem names i (omega arith)

sub_lem : (x y : ℕ) → 1 ≤ y → y < x → pos x +ℤ neg y ≡ pos (x - y)
sub_lem x zero low h = absurd (omega arith)
sub_lem x (suc n) low h =
    let below : ltb n x ≡ true = ground arith in rw below (ap pos (omega arith))

less_lem :
    (a m : ℕ) → 1 ≤ m → m < a → pos (a * 10 ^ 18) +ℤ neg (m * 10 ^ 18) ≡ pos ((a - m) * 10 ^ 18)
less_lem a m low h =
    sub_lem (a * 10 ^ 18) (m * 10 ^ 18) (omega arith) (omega arith) ∙ ap pos (omega arith)

module _ (g : Geth) (getenv : Env) where
  or_default_cons :
      (text : String) (s t : GoString) (c : ℕ)
      → not_empty g getenv text (or_default s (c ∷ t)) ≡ ok (or_default s (c ∷ t))
  unfolding not_empty or_default
  or_default_cons text [] t c = refl
  or_default_cons text (d ∷ s) t c = refl

  pub alice_key_lem :
      (text : String)
      → not_empty g getenv text (get_alice_public_key g getenv) ≡ ok (get_alice_public_key g getenv)
  unfolding get_alice_public_key get_conditional_env
  alice_key_lem text = or_default_cons text _ _ _

  amount_lem : (k : ℕ) → k < 9900 → create_token_amount (pos k +ℤ pos 100) 18 ≡ (k + 100) * 10 ^ 18
  unfolding create_token_amount
  amount_lem k h = omega arith

  margin_lem : (k : ℕ) → k < 9 → create_token_amount (pos k +ℤ pos 1) 18 ≡ (k + 1) * 10 ^ 18
  unfolding create_token_amount
  margin_lem k h = omega arith

  -- So many tokens and so many fewer, for the user at the destination.
  abbrev pub IsFilled : StarknetOrderConfig → Type 0
  IsFilled order =
      (amount : ℕ) × (margin : ℕ) × (100 ≤ amount)
      × (amount ≤ 9999)
      × (1 ≤ margin)
      × (margin ≤ 9)
      × (order.input_amount ≡ pos (amount * 10 ^ 18))
      × (order.output_amount ≡ pos ((amount - margin) * 10 ^ 18))
      × (get_alice_address_for_network g getenv order.destination_chain ≡ ok order.user)

  random_order-IsFilled :
      (destination user : GoString) (d_amount d_delta : Draw) (now : ℕ)
      → IsDraw d_amount
      → IsDraw d_delta
      → get_alice_address_for_network g getenv destination ≡ ok user
      → IsFilled (random_order g getenv destination user d_amount d_delta now)
  unfolding random_order starknet_order
  random_order-IsFilled destination user d_amount d_delta now amounts deltas e =
      let (k, ek, hk) = secure_random_int-Within 9900 d_amount (omega arith) amounts in
      let (m, em, hm) = secure_random_int-Within 9 d_delta (omega arith) deltas in
      let tokens = ap (λ z. create_token_amount (z +ℤ pos 100) 18) ek ∙ amount_lem k hk in
      let less = ap (λ z. create_token_amount (z +ℤ pos 1) 18) em ∙ margin_lem m hm in
      (
        k + 100,
        m + 1,
        omega arith,
        omega arith,
        omega arith,
        omega arith,
        ap pos tokens,
        rw (tokens, less) (less_lem (k + 100) (m + 1) (omega arith) (omega arith)),
        e,
      )

  starknet_alice_lem :
      not_empty g getenv "starknet Alice address not set" (get_starknet_alice_address g getenv)
      ≡ ok (get_starknet_alice_address g getenv)
  unfolding get_starknet_alice_address get_conditional_env
  starknet_alice_lem = or_default_cons "starknet Alice address not set" _ _ _

  alice_address :
      (name : GoString)
      → (user : GoString) × (get_alice_address_for_network g getenv name ≡ ok user)
  unfolding get_alice_address_for_network
  alice_address name = elim (Bool-cases (contains (to_lower name) (str "starknet"))) [
    | inl e ↦ (get_starknet_alice_address g getenv, rw e starknet_alice_lem)
    | inr e ↦ (get_alice_public_key g getenv, rw e (alice_key_lem "alice public key not set"))
  ]

  random_destination :
      (networks : Networks) (origin : GoString) (d : Draw)
      → IsDraw d
      → (name : GoString) × (get_random_destination_chain g getenv networks origin d ≡ ok name)
  unfolding get_random_destination_chain
  random_destination networks origin d draw =
      let names = evm_destinations origin (get_network_names networks) in
      elim (Bool-cases (length names == 0)) [
        | inl e ↦
            (get_env_with_default getenv (str "DEFAULT_EVM_DESTINATION") (str "Sepolia"), rw e refl)
        | inr e ↦
            let (i, ei, hi) = secure_random_int-Within (length names) d (ground arith) draw in
            let (name, at_i) = name_at_lem names i hi in (name, rw (ei, e) at_i)
      ]

  -- With draws that are not the least `int64` the command `random` makes an order: the user pays 100
  -- to 9999 whole tokens and is to receive 1 to 9 whole tokens less, and the order's user is the
  -- address that belongs to its destination.
  pub open_random_starknet_order_lem :
      (networks : Networks) (d_destination d_amount d_delta : Draw) (now : ℕ)
      → IsDraw d_destination
      → IsDraw d_amount
      → IsDraw d_delta
      → (order : StarknetOrderConfig) × (open_random_starknet_order g getenv networks d_destination
            d_amount d_delta now
          ≡ ok order)
        × IsFilled order
  unfolding open_random_starknet_order random_order_to
  open_random_starknet_order_lem networks d_destination d_amount d_delta now destinations amounts
        deltas =
      let (destination, e) =
        random_destination networks (str "Starknet") d_destination destinations in
      let (user, known) = alice_address destination in
      (
        random_order g getenv destination user d_amount d_delta now,
        rw (e, known) refl,
        random_order-IsFilled destination user d_amount d_delta now amounts deltas known,
      )
