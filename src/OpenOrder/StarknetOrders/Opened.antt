-- ===== src/OpenOrder/StarknetOrders/Opened.antt =====
-- The order data that the command `random` makes of its Starknet order.
use oif_starknet.Prelude.{
  ℕ, ◌-◌, ◌*◌, ◌^◌, ◌≡◌, ◌≤◌, ◌⊎◌, refl, ap, true, [], some, Bool-cases, inl, inr,
}
use oif_starknet.Prelude.Result.{ok}
use oif_starknet.Prelude.Text.{Bytes, GoString, str, str_eq}
use oif_starknet.Prelude.Hex.{encode_to_string}
use oif_starknet.Types.Address.{Geth}
use oif_starknet.Config.Networks.{Networks}
use oif_starknet.EnvUtil.{Env}
use oif_starknet.StarknetUtil.{Felts}
use oif_starknet.OpenOrder.Random.{Draw}
use oif_starknet.OpenOrder.Random.Bounds.{IsDraw}
use oif_starknet.OpenOrder.EvmData.{find_user}
use oif_starknet.OpenOrder.StarknetData.{StarknetOrderData}
use oif_starknet.OpenOrder.StarknetOrders.{
  StarknetToolNetwork, StarknetOrderConfig, get_alice_public_key, starknet_test_users,
  text_or_empty, magnitude, evm_felt, output_token_felt, settler_hex, settler_felt,
  build_starknet_order_data, open_random_starknet_order,
}
use oif_starknet.OpenOrder.StarknetOrders.Built.{
  IsFilled, alice_key_lem, open_random_starknet_order_lem,
}

module _ (g : Geth) (getenv : Env) where
  -- The sender is read from the table of users where the order's user is a name in it, and of the
  -- empty text where it is neither name.
  sender_text :
      (user : GoString)
      → (str_eq (str "Alice") user ≡ true)
        ⊎ ((str_eq (str "Solver") user ≡ true)
            ⊎ (text_or_empty (find_user user (starknet_test_users g getenv)) ≡ []))
  unfolding find_user starknet_test_users text_or_empty
  sender_text user = elim (Bool-cases (str_eq (str "Alice") user)) [
    | inl e ↦ inl e
    | inr alice ↦ elim (Bool-cases (str_eq (str "Solver") user)) [
      | inl e ↦ inr (inl e)
      | inr solver ↦ inr (inr (rw (alice, solver) refl))
    ]
  ]

  module _ {Felt : Type 0} (fs : Felts Felt) (left_pad_bytes : Bytes → ℕ → Bytes)
      (element_of : GoString → Felt) (origin : StarknetToolNetwork) (origin_domain domain nonce : ℕ)
      (name : GoString) where
    -- The order data of an order: so many tokens and so many fewer, the order's deadlines, the
    -- given domains and nonce, and Alice's address on the EVM network; the sender is that of the
    -- empty text, unless the order's user is one of the two names.
    abbrev pub HasData : StarknetOrderConfig → StarknetOrderData Felt → Type 0
    HasData order od =
        (amount : ℕ) × (margin : ℕ) × (100 ≤ amount)
        × (amount ≤ 9999)
        × (1 ≤ margin)
        × (margin ≤ 9)
        × (od.amount_in ≡ some (amount * 10 ^ 18))
        × (od.amount_out ≡ some ((amount - margin) * 10 ^ 18))
        × (od.open_deadline ≡ order.open_deadline)
        × (od.fill_deadline ≡ order.fill_deadline)
        × (od.origin_domain ≡ origin_domain)
        × (od.destination_domain ≡ domain)
        × (od.sender_nonce ≡ fs.big_int_to_felt nonce)
        × (od.recipient
            ≡ element_of (
                encode_to_string
                  (left_pad_bytes (g.hex_to_address (get_alice_public_key g getenv)) 32)))
        × ((str_eq (str "Alice") order.user ≡ true)
            ⊎ ((str_eq (str "Solver") order.user ≡ true) ⊎ (od.sender ≡ element_of [])))

    build-HasData :
        (networks : Networks) (order : StarknetOrderConfig)
        → IsFilled g getenv order
        → (od : StarknetOrderData Felt) × (build_starknet_order_data g getenv fs left_pad_bytes
              element_of
              (starknet_test_users g getenv)
              networks
              order
              origin
              origin_domain
              domain
              nonce
              name
            ≡ ok od)
          × HasData order od
    unfolding build_starknet_order_data magnitude evm_felt
    build-HasData networks order (amount, margin, a, b, c, d, paid, received, known) = (
      record {
        sender = element_of (text_or_empty (find_user order.user (starknet_test_users g getenv)));
        recipient = evm_felt g getenv fs left_pad_bytes element_of (get_alice_public_key g getenv);
        input_token = element_of origin.dog_coin_address;
        output_token =
            output_token_felt g getenv fs left_pad_bytes element_of networks origin.dog_coin_address
              name;
        amount_in = some (magnitude order.input_amount);
        amount_out = some (magnitude order.output_amount);
        sender_nonce = fs.big_int_to_felt nonce;
        origin_domain = origin_domain;
        destination_domain = domain;
        destination_settler = settler_felt g getenv fs left_pad_bytes element_of name (
            settler_hex g getenv fs left_pad_bytes element_of networks origin.hyperlane_address
              name);
        open_deadline = order.open_deadline;
        fill_deadline = order.fill_deadline;
        data_elements = [];
      },
      rw (alice_key_lem g getenv "Alice public key not set") refl,
      (
        amount,
        margin,
        a,
        b,
        c,
        d,
        ap (λ z. some (magnitude z)) paid,
        ap (λ z. some (magnitude z)) received,
        refl,
        refl,
        refl,
        refl,
        refl,
        refl,
        elim (sender_text order.user) [
          | inl e ↦ inl e
          | inr (inl e) ↦ inr (inl e)
          | inr (inr e) ↦ inr (inr (ap element_of e))
        ],
      ),
    )

    -- With draws that are not the least `int64` the command `random` makes an order and its data:
    -- they say 100 to 9999 whole tokens for 1 to 9 whole tokens less, with the order's deadlines,
    -- the given domains and nonce, and Alice's EVM address as the recipient. The sender is not
    -- found, and is the element of the empty text, unless the order's user is the text Alice or
    -- the text Solver.
    pub build-open_random_starknet_order :
        (networks : Networks) (d_destination d_amount d_delta : Draw) (now : ℕ)
        → IsDraw d_destination
        → IsDraw d_amount
        → IsDraw d_delta
        → (order : StarknetOrderConfig) × (open_random_starknet_order g getenv networks
              d_destination d_amount d_delta now
            ≡ ok order)
          × (od : StarknetOrderData Felt) × (build_starknet_order_data g getenv fs left_pad_bytes
                element_of
                (starknet_test_users g getenv)
                networks
                order
                origin
                origin_domain
                domain
                nonce
                name
              ≡ ok od)
          × HasData order od
    build-open_random_starknet_order networks d_destination d_amount d_delta now destinations
          amounts deltas =
        let (order, made, filled) =
          open_random_starknet_order_lem g getenv networks d_destination d_amount d_delta now
            destinations amounts deltas in
        let (od, built, has) = build-HasData networks order filled in (order, made, od, built, has)
