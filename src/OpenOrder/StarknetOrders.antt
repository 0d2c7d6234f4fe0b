-- ===== src/OpenOrder/StarknetOrders.antt =====
-- solver/cmd/tools/open-order/starknet_order.go: the orders that the commands `random` and `default`
-- make, and the order data of an order. `common.LeftPadBytes` is a parameter, and so is
-- the element that `utils.HexToFelt` returns beside its error, which this file drops.
pub mod Built
pub mod Opened
use Prim.Native.String.{String}
use oif_starknet.Prelude.{
  ℕ, ◌+◌, ◌-◌, ◌*◌, ◌%◌, ◌^◌, Bool, true, false, not, List, [], ◌∷◌, ◌++◌, Option, none, some, ◌==◌,
  ◌&&◌, if◌then◌else◌, length, get_elem?,
}
use oif_starknet.Prelude.Int.{ℤ, pos, negsuc, neg, ◌+ℤ◌}
use oif_starknet.Prelude.Result.{
  Result, ok, err, panic, errorf, index_out_of_range, nil_dereference, wrapping, ◌>>=◌,
}
use oif_starknet.Prelude.Text.{Bytes, GoString, str, str_eq, contains, to_lower, to_upper}
use oif_starknet.Prelude.Hex.{encode_to_string}
use oif_starknet.Types.Address.{Geth}
use oif_starknet.Config.Networks.{
  Networks, NetworkConfig, lookup_network, get_network_names, get_hyperlane_address,
}
use oif_starknet.EnvUtil.{
  Env, get_conditional_env, get_env_with_default, get_starknet_solver_address,
}
use oif_starknet.StarknetUtil.{Felts}
use oif_starknet.OpenOrder.Random.{
  Draw, dog_coin, secure_random_int, create_token_amount, min_token_amount, max_token_amount,
  min_delta_amount, max_delta_amount,
}
use oif_starknet.OpenOrder.EvmData.{get_starknet_alice_address, find_user}
use oif_starknet.OpenOrder.StarknetData.{StarknetOrderData, encode_starknet_order_data}

-- `StarknetNetworkConfig`: the addresses are texts.
pub record StarknetToolNetwork : Type 0 where
  pub name : GoString
  pub url : GoString
  pub chain_id : ℕ
  pub hyperlane_address : GoString
  pub dog_coin_address : GoString

pub record StarknetOrderConfig : Type 0 where
  pub origin_chain : GoString
  pub destination_chain : GoString
  pub input_token : GoString
  pub output_token : GoString
  pub input_amount : ℤ
  pub output_amount : ℤ
  pub user : GoString
  pub open_deadline : ℕ
  pub fill_deadline : ℕ

unfoldable pub is_starknet_network : GoString → Bool
is_starknet_network network_name = contains (to_lower network_name) (str "starknet")

-- The loop that keeps the EVM networks other than the origin.
unfoldable pub evm_destinations : GoString → List GoString → List GoString
unfolding is_starknet_network
evm_destinations origin [] = []
evm_destinations origin (name ∷ rest) =
    if not (str_eq name origin) && not (is_starknet_network name)
    then name ∷ evm_destinations origin rest
    else evm_destinations origin rest

-- `evmDestinations[destIdx]`
unfoldable pub name_at : List GoString → ℤ → Result GoString
name_at names (pos i) = elim (get_elem? names i) [
  | none ↦ panic index_out_of_range
  | some name ↦ ok name
]
name_at names (negsuc i) = panic index_out_of_range

-- What `n.Bytes()` reads of a number.
unfoldable pub magnitude : ℤ → ℕ
magnitude (pos n) = n
magnitude (negsuc n) = n + 1

unfoldable pub text_or_empty : Option GoString → GoString
text_or_empty none = []
text_or_empty (some s) = s

module _ (g : Geth) (getenv : Env) where
  -- `GetAlicePublicKey`
  unfoldable pub get_alice_public_key : GoString
  get_alice_public_key =
      get_conditional_env getenv (str "ALICE_PUB_KEY")
        (str "0x70997970C51812dc3A010C7d01b50e0d17dc79C8")

  -- `initializeStarknetTestUsers`: the names and the addresses.
  unfoldable pub starknet_test_users : List (GoString × GoString)
  unfolding get_starknet_alice_address
  starknet_test_users =
      (str "Alice", get_starknet_alice_address g getenv)
      ∷ (str "Solver", get_starknet_solver_address getenv)
      ∷ []

  unfoldable pub not_empty : String → GoString → Result GoString
  not_empty text [] = err (errorf text)
  not_empty text (c ∷ s) = ok (c ∷ s)

  unfoldable pub get_alice_address_for_network : GoString → Result GoString
  unfolding get_starknet_alice_address get_alice_public_key not_empty
  get_alice_address_for_network network_name =
      if contains (to_lower network_name) (str "starknet")
      then not_empty "starknet Alice address not set" (get_starknet_alice_address g getenv)
      else not_empty "alice public key not set" get_alice_public_key

  unfoldable pub get_random_destination_chain : Networks → GoString → Draw → Result GoString
  unfolding evm_destinations name_at secure_random_int
  get_random_destination_chain networks origin d =
      let names = evm_destinations origin (get_network_names networks) in
      if length names == 0
      then ok (get_env_with_default getenv (str "DEFAULT_EVM_DESTINATION") (str "Sepolia"))
      else name_at names (secure_random_int (length names) d)

  unfoldable pub starknet_order : GoString → GoString → ℤ → ℤ → ℕ → StarknetOrderConfig
  starknet_order destination user input output now = record {
    origin_chain = str "Starknet";
    destination_chain = destination;
    input_token = dog_coin;
    output_token = dog_coin;
    input_amount = input;
    output_amount = output;
    user = user;
    open_deadline = now + 3600;
    fill_deadline = now + 24 * 3600;
  }

  -- The order of the draws for the amount and for the margin.
  unfoldable pub random_order : GoString → GoString → Draw → Draw → ℕ → StarknetOrderConfig
  unfolding secure_random_int create_token_amount starknet_order
  random_order destination user d_amount d_delta now =
      let input =
        create_token_amount
          (secure_random_int (max_token_amount - min_token_amount) d_amount +ℤ pos min_token_amount)
          18 in
      let delta =
        create_token_amount
          (secure_random_int (max_delta_amount - min_delta_amount) d_delta +ℤ pos min_delta_amount)
          18 in
      starknet_order destination user (pos input) (pos input +ℤ neg delta) now

  unfoldable pub random_order_to : GoString → Draw → Draw → ℕ → Result StarknetOrderConfig
  unfolding get_alice_address_for_network random_order
  random_order_to destination d_amount d_delta now = do
    user ← wrapping "Failed to get Alice address" (get_alice_address_for_network destination)
    ok (random_order destination user d_amount d_delta now)

  -- `openRandomStarknetOrder`, up to the execution of its order.
  unfoldable pub open_random_starknet_order :
      Networks → Draw → Draw → Draw → ℕ → Result StarknetOrderConfig
  unfolding get_random_destination_chain random_order_to
  open_random_starknet_order networks d_destination d_amount d_delta now = do
    destination ← get_random_destination_chain networks (str "Starknet") d_destination
    random_order_to destination d_amount d_delta now

  -- `openDefaultStarknetToEvm`, up to the execution of its order.
  unfoldable pub open_default_starknet_to_evm : ℕ → Result StarknetOrderConfig
  unfolding get_alice_address_for_network create_token_amount starknet_order
  open_default_starknet_to_evm now = do
    let destination = get_env_with_default getenv (str "DEFAULT_EVM_DESTINATION") (str "Ethereum")
    user ← wrapping "Failed to get Alice address" (get_alice_address_for_network destination)
    ok (
        starknet_order destination user (pos (create_token_amount (pos 1000) 18))
          (pos (create_token_amount (pos 999) 18)) now)

  module _ {Felt : Type 0} (fs : Felts Felt) (left_pad_bytes : Bytes → ℕ → Bytes)
      (element_of : GoString → Felt) where
    -- The felt of an EVM address, padded to 32 bytes.
    unfoldable pub evm_felt : GoString → Felt
    evm_felt address = element_of (encode_to_string (left_pad_bytes (g.hex_to_address address) 32))

    unfoldable pub dog_coin_felt : GoString → GoString → Felt
    unfolding evm_felt
    dog_coin_felt origin_dog_coin [] = element_of origin_dog_coin
    dog_coin_felt origin_dog_coin (c ∷ s) = evm_felt (c ∷ s)

    unfoldable pub known_token_felt : GoString → GoString → Option NetworkConfig → Felt
    unfolding dog_coin_felt
    known_token_felt origin_dog_coin name none = element_of origin_dog_coin
    known_token_felt origin_dog_coin name (some n) =
        dog_coin_felt origin_dog_coin
          (get_env_with_default getenv (to_upper name ++ str "_DOG_COIN_ADDRESS") [])

    -- `outputTokenFelt`
    unfoldable pub output_token_felt : Networks → GoString → GoString → Felt
    unfolding is_starknet_network known_token_felt
    output_token_felt networks origin_dog_coin name =
        if is_starknet_network name
        then element_of origin_dog_coin
        else known_token_felt origin_dog_coin name (lookup_network name networks)

    unfoldable pub or_origin : GoString → GoString → GoString
    or_origin origin [] = origin
    or_origin origin (c ∷ s) = c ∷ s

    -- `destSettlerHex`; where the lookup fails, so does that in `config.Networks`.
    unfoldable pub settler_hex : Networks → GoString → GoString → GoString
    unfolding or_origin
    settler_hex networks origin_hyperlane name = elim (get_hyperlane_address networks name) [
      | ok a ↦ or_origin origin_hyperlane (g.hex a)
      | err e ↦ origin_hyperlane
      | panic p ↦ origin_hyperlane
    ]

    unfoldable pub settler_felt : GoString → GoString → Felt
    unfolding is_starknet_network evm_felt
    settler_felt name hex = if is_starknet_network name then element_of hex else evm_felt hex

    -- `buildStarknetOrderData`
    unfoldable pub build_starknet_order_data :
        List (GoString × GoString)
        → Networks
        → StarknetOrderConfig
        → StarknetToolNetwork
        → ℕ
        → ℕ
        → ℕ
        → GoString
        → Result (StarknetOrderData Felt)
    unfolding find_user text_or_empty evm_felt output_token_felt settler_hex settler_felt magnitude
        get_alice_public_key not_empty
    build_starknet_order_data users networks order origin origin_domain destination_domain
          sender_nonce name =
        do
          recipient ← not_empty "Alice public key not set" get_alice_public_key
          ok (record {
            sender = element_of (text_or_empty (find_user order.user users));
            recipient = evm_felt recipient;
            input_token = element_of origin.dog_coin_address;
            output_token = output_token_felt networks origin.dog_coin_address name;
            amount_in = some (magnitude order.input_amount);
            amount_out = some (magnitude order.output_amount);
            sender_nonce = fs.big_int_to_felt sender_nonce;
            origin_domain = origin_domain;
            destination_domain = destination_domain;
            destination_settler =
                settler_felt name (settler_hex networks origin.hyperlane_address name);
            open_deadline = order.open_deadline;
            fill_deadline = order.fill_deadline;
            data_elements = [];
          })
