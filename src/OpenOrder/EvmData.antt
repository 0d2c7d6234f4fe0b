-- ===== src/OpenOrder/EvmData.antt =====
-- solver/cmd/tools/open-order/evm_order.go: the data of an EVM order, from the order that a command
-- makes to the fields of the contract's `OrderData`. The ABI encoding of these is go-ethereum's.
-- `uint256.MustFromBig` is a parameter, and so is the answer of the contract to a nonce.
pub mod Filled
pub mod Nonce
use oif_starknet.Prelude.{
  ℕ, zero, suc, ◌+◌, ◌-◌, ◌%◌, ◌^◌, Bool, true, false, not, List, [], ◌∷◌, ◌++◌, Option, none, some,
  ltb, leb, ◌==◌, ◌&&◌, ◌||◌, if◌then◌else◌, length, take, drop, replicate,
}
use oif_starknet.Prelude.Int.{ℤ, pos}
use oif_starknet.Prelude.Result.{Result, ok, err, panic, errorf, wrapping, ◌>>=◌}
use oif_starknet.Prelude.Text.{Bytes, GoString, str, str_eq, trim_0x}
use oif_starknet.Prelude.Hex.{decode_string}
use oif_starknet.Prelude.BigInt.{to_uint32, to_uint64}
use oif_starknet.Types.Address.{Address, Geth, copy_at, zero_bytes32}
use oif_starknet.Config.Networks.{NetworkConfig, Networks, lookup_network, get_hyperlane_domain}
use oif_starknet.EnvUtil.{Env, get_conditional_env}
use oif_starknet.OpenOrder.Random.{ToolNetwork, OrderConfig, starknet_network_name}

abbrev pub starknet_sepolia_chain_id : ℕ
starknet_sepolia_chain_id = 23448591

pub record TokenAmount : Type 0 where
  pub token : GoString
  pub amount : ℕ
  pub chain_id : ℕ

-- `OrderData`
pub record OrderData : Type 0 where
  pub origin_chain_id : ℕ
  pub destination_chain_id : ℕ
  pub user : GoString
  pub open_deadline : ℕ
  pub fill_deadline : ℕ
  pub max_spent : List TokenAmount
  pub min_received : List TokenAmount

-- `ABIOrderData`
pub record AbiOrderData : Type 0 where
  pub sender : Bytes
  pub recipient : Bytes
  pub input_token : Bytes
  pub output_token : Bytes
  pub amount_in : ℕ
  pub amount_out : ℕ
  pub sender_nonce : ℕ
  pub origin_domain : ℕ
  pub destination_domain : ℕ
  pub destination_settler : Bytes
  pub fill_deadline : ℕ
  pub data_bytes : Bytes

-- An entry of `testUsers`: its name and its address.
abbrev pub TestUsers : Type 0
TestUsers = List (GoString × GoString)

unfoldable pub is_empty : {A : Type 0} → List A → Bool
is_empty [] = true
is_empty (x ∷ xs) = false

-- `IsValid`, at a time in seconds.
unfoldable pub is_valid : OrderData → ℕ → Bool
unfolding is_empty
is_valid od now =
    if od.origin_chain_id == od.destination_chain_id
    then false
    else if not (length od.user == 42) || not (str_eq (take 2 od.user) (str "0x"))
    then false
    else if leb od.open_deadline now
    then false
    else if leb od.fill_deadline od.open_deadline
    then false
    else if is_empty od.max_spent || is_empty od.min_received
    then false
    else true

-- The text without its prefix, with a digit in front if their number is odd.
unfoldable pub even_digits : GoString → GoString
even_digits s = if length s % 2 == 1 then 48 ∷ s else s

-- `if len(b) > 32 { b = b[len(b)-32:] }`, and the copy behind it.
unfoldable pub last_word : Bytes → Bytes
last_word b =
    let tail = if ltb 32 (length b) then drop (length b - 32) b else b in
    copy_at (32 - length tail) tail

-- `hexToBytes32`; the program ends where the text is no hexadecimal number.
unfoldable pub hex_to_bytes32 : GoString → Result Bytes
unfolding even_digits last_word
hex_to_bytes32 hex_str = do
  b ← wrapping "invalid hex for bytes32" (decode_string (even_digits (trim_0x hex_str)))
  ok (last_word b)

-- `hexToBytes32` of a text that is not empty, and a default for the empty one.
unfoldable pub bytes32_or : Bytes → GoString → Result Bytes
unfolding hex_to_bytes32
bytes32_or default_value [] = ok default_value
bytes32_or default_value (c ∷ s) = hex_to_bytes32 (c ∷ s)

-- The first user of that name.
unfoldable pub find_user : GoString → TestUsers → Option GoString
find_user name [] = none
find_user name ((user, address) ∷ rest) =
    if str_eq user name then some address else find_user name rest

-- The first network with that chain ID.
unfoldable pub find_tool_network : ℕ → List ToolNetwork → Option ToolNetwork
find_tool_network chain_id [] = none
find_tool_network chain_id (n ∷ rest) =
    if n.chain_id == chain_id then some n else find_tool_network chain_id rest

abbrev pub zero_address : Address
zero_address = replicate 20 0

unfoldable pub dog_coin_or_zero : Option ToolNetwork → Address
dog_coin_or_zero none = zero_address
dog_coin_or_zero (some n) = n.dog_coin_address

-- `if a != (common.Address{}) { copy(word[12:], a.Bytes()) }`
unfoldable pub padded_address : Address → Bytes
padded_address a = if str_eq a zero_address then zero_bytes32 else copy_at 12 a

-- `amountIn` and `amountOut`: the first entry's amount.
unfoldable pub first_amount : List TokenAmount → ℕ
first_amount [] = 0
first_amount (t ∷ rest) = t.amount

abbrev pub evm_settler : GoString
evm_settler = str "0xf614c6bF94b022E16BEF7dBecF7614FFD2b201d3"

-- `getHyperlaneDomain`
unfoldable pub domain_or_zero : Result ℕ → ℕ
domain_or_zero (ok domain) = to_uint32 domain
domain_or_zero (err e) = 0
domain_or_zero (panic p) = 0

module _ (g : Geth) (getenv : Env) where
  -- The address of the network, where the environment has none; its text is never empty.
  unfoldable pub starknet_settler_text : Option NetworkConfig → GoString → Result Bytes
  unfolding hex_to_bytes32 bytes32_or
  starknet_settler_text none addr = ok zero_bytes32
  starknet_settler_text (some n) [] = bytes32_or zero_bytes32 (g.hex n.hyperlane_address)
  starknet_settler_text (some n) (c ∷ s) = hex_to_bytes32 (c ∷ s)

  -- `destSettlerBytes`, which `buildOrderData` does not use further.
  unfoldable pub dest_settler_bytes : Networks → ToolNetwork → Result Bytes
  unfolding starknet_settler_text
  dest_settler_bytes networks destination =
      if str_eq destination.name starknet_network_name
      then starknet_settler_text (lookup_network starknet_network_name networks)
          (getenv (str "STARKNET_HYPERLANE_ADDRESS"))
      else ok (copy_at 12 destination.hyperlane_address)

  -- `buildOrderData`, at a time in seconds.
  unfoldable pub build_order_data :
      (ℤ → Result ℕ) → Networks → OrderConfig → ToolNetwork → ToolNetwork → ℕ → ℕ → Result OrderData
  unfolding dest_settler_bytes domain_or_zero
  build_order_data must_from_big networks order origin destination origin_domain now = do
    settler ← dest_settler_bytes networks destination
    let domain = domain_or_zero (get_hyperlane_domain networks destination.name)
    spent ← must_from_big order.output_amount
    received ← must_from_big order.input_amount
    ok (record {
      origin_chain_id = origin_domain;
      destination_chain_id = domain;
      user = order.user;
      open_deadline = now + 3600;
      fill_deadline = order.fill_deadline;
      max_spent =
          record { token = g.hex destination.dog_coin_address; amount = spent; chain_id = domain }
          ∷ [];
      min_received =
          record {
            token = g.hex origin.dog_coin_address;
            amount = received;
            chain_id = origin_domain;
          }
          ∷ [];
    })

  unfoldable pub user_address : Option GoString → Address
  user_address none = zero_address
  user_address (some address) = g.hex_to_address address

  -- `GetStarknetAliceAddress`
  unfoldable pub get_starknet_alice_address : GoString
  get_starknet_alice_address =
      get_conditional_env getenv (str "STARKNET_ALICE_ADDRESS")
        (str "0x13d9ee239f33fea4f8785b9e3870ade909e20a9599ae7cd62c1c292b73af1b7")

  -- `recipientBytes`, for a user with an address.
  unfoldable pub recipient_word : Address → ℕ → Result Bytes
  unfolding bytes32_or get_starknet_alice_address
  recipient_word user destination_chain_id =
      if str_eq user zero_address
      then ok zero_bytes32
      else if destination_chain_id == starknet_sepolia_chain_id
      then bytes32_or (copy_at 12 user) get_starknet_alice_address
      else ok (copy_at 12 user)

  unfoldable pub output_token_word : List ToolNetwork → ℕ → Result Bytes
  unfolding bytes32_or padded_address dog_coin_or_zero find_tool_network
  output_token_word tool_networks destination_chain_id =
      if destination_chain_id == starknet_sepolia_chain_id
      then bytes32_or zero_bytes32 (getenv (str "STARKNET_DOG_COIN_ADDRESS"))
      else ok
          (padded_address (dog_coin_or_zero (find_tool_network destination_chain_id tool_networks)))

  unfoldable pub destination_settler_word : ℕ → Result Bytes
  unfolding bytes32_or
  destination_settler_word destination_chain_id =
      if destination_chain_id == starknet_sepolia_chain_id
      then bytes32_or zero_bytes32 (getenv (str "STARKNET_HYPERLANE_ADDRESS"))
      else ok (copy_at 12 (g.hex_to_address evm_settler))

  -- `convertToABIOrderData`
  unfoldable pub convert_to_abi_order_data :
      TestUsers → OrderData → ℕ → List ToolNetwork → Result AbiOrderData
  unfolding user_address find_user recipient_word output_token_word destination_settler_word
      padded_address dog_coin_or_zero find_tool_network first_amount
  convert_to_abi_order_data users od sender_nonce tool_networks = do
    let user = user_address (find_user od.user users)
    let origin_id = to_uint64 od.origin_chain_id
    let destination_id = to_uint64 od.destination_chain_id
    recipient ← recipient_word user destination_id
    output_token ← output_token_word tool_networks destination_id
    settler ← destination_settler_word destination_id
    ok (record {
      sender = padded_address user;
      recipient = recipient;
      input_token = padded_address (dog_coin_or_zero (find_tool_network origin_id tool_networks));
      output_token = output_token;
      amount_in = first_amount od.min_received;
      amount_out = first_amount od.max_spent;
      sender_nonce = sender_nonce;
      origin_domain = to_uint32 origin_id;
      destination_domain = to_uint32 destination_id;
      destination_settler = settler;
      fill_deadline = to_uint32 (to_uint64 od.fill_deadline);
      data_bytes = [];
    })

-- The loop of `pickValidSenderNonce`; `is_valid_nonce` asks the contract.
unfoldable pub probe_nonces : (ℕ → Result Bool) → ℕ → ℕ → Result ℕ
probe_nonces is_valid_nonce zero nonce =
    err (errorf "could not find a valid sender nonce after 1000 attempts")
probe_nonces is_valid_nonce (suc rounds) nonce =
    let rest = probe_nonces is_valid_nonce rounds (nonce + 1) in
    is_valid_nonce nonce >>= (λ valid. if valid then ok nonce else rest)

-- The seed, at a time in seconds.
unfoldable pub first_nonce : ℕ → ℕ
first_nonce now = let seed = now % 1000000 in if ltb seed 1 then 1 else seed

-- `pickValidSenderNonce`
unfoldable pub pick_valid_sender_nonce : (ℕ → Result Bool) → ℕ → Result ℕ
unfolding probe_nonces first_nonce
pick_valid_sender_nonce is_valid_nonce now = probe_nonces is_valid_nonce 1000 (first_nonce now)
