-- ===== src/OpenOrder/EvmData/Filled.antt =====
-- The fields of an EVM order's data are those of the order.
use oif_starknet.Prelude.{
  ℕ, ◌-◌, ◌%◌, ◌^◌, ◌≡◌, ◌≤◌, ◌⊎◌, refl, false, arith, ltb, ◌==◌, List, ◌∷◌, ◌++◌, All, length,
  replicate, take-of_length,
}
use mathlib.Core.List.{append-nil}
use oif_starknet.Prelude.Int.{ℤ}
use oif_starknet.Prelude.Result.{Result, ok}
use oif_starknet.Prelude.Text.{Bytes, trim_0x}
use oif_starknet.Prelude.Hex.{
  IsByte, length-encode_to_string, encode_to_string, decode_string-encode_to_string,
}
use oif_starknet.Types.Address.{Address, Geth, copy_at}
use oif_starknet.Config.Networks.{Networks, get_hyperlane_domain}
use oif_starknet.EnvUtil.{Env}
use oif_starknet.OpenOrder.Random.{ToolNetwork, OrderConfig}
use oif_starknet.OpenOrder.EvmData.{
  TestUsers, OrderData, AbiOrderData, hex_to_bytes32, even_digits, last_word, find_user,
  find_tool_network, evm_settler, padded_address, dog_coin_or_zero, first_amount, user_address,
  starknet_sepolia_chain_id, domain_or_zero,
}

even_digits-encode_to_string : (b : Bytes) → even_digits (encode_to_string b) ≡ encode_to_string b
unfolding even_digits
even_digits-encode_to_string b =
    let size = length-encode_to_string b in
    let even : (length (encode_to_string b) % 2 == 1) ≡ false = ground arith in rw even refl

last_word_lem : (b : Bytes) → length b ≤ 32 → last_word b ≡ replicate (32 - length b) 0 ++ b
unfolding last_word copy_at
last_word_lem b h =
    let short : ltb 32 (length b) ≡ false = ground arith in
    let room : 32 - (32 - length b) ≡ length b = omega arith in
    let none_left : length b - length b ≡ 0 = omega arith in
    rw (short, room, none_left, take-of_length (length b) b (omega arith), append-nil b) refl

-- The text `0x…` of at most 32 bytes is read as these bytes behind zeros.
pub hex_to_bytes32-encode_to_string :
    (b : Bytes)
    → All IsByte b
    → length b ≤ 32
    → hex_to_bytes32 (48 ∷ 120 ∷ encode_to_string b) ≡ ok (replicate (32 - length b) 0 ++ b)
unfolding hex_to_bytes32 trim_0x
hex_to_bytes32-encode_to_string b bytes h =
    rw (even_digits-encode_to_string b, decode_string-encode_to_string b bytes, last_word_lem b h)
      refl

abbrev pub IsWord : Bytes → Type 0
IsWord b = length b ≡ 32

module _ (g : Geth) (getenv : Env) (must_from_big : ℤ → Result ℕ) (networks : Networks)
    (users : TestUsers) (tool_networks : List ToolNetwork) (order : OrderConfig)
    (origin destination : ToolNetwork) (origin_domain now nonce : ℕ) where
  -- The domain that the configuration has for the destination's name, and 0 without one.
  abbrev pub destination_of : ℕ
  destination_of = domain_or_zero (get_hyperlane_domain networks destination.name)

  -- The token of a network that the tool finds by its domain.
  abbrev pub token_of : ℕ → Bytes
  token_of domain = padded_address (dog_coin_or_zero (find_tool_network domain tool_networks))

  -- The words of an order to a destination on an EVM network: the user receives what it is to
  -- receive at its own address, and the settler is always the one address that the tool names.
  abbrev pub EvmWords : AbiOrderData → Type 0
  EvmWords a =
      (a.recipient ≡ a.sender)
      × (a.output_token ≡ token_of destination_of)
      × (a.destination_settler ≡ copy_at 12 (g.hex_to_address evm_settler))

  -- The data carry the order.
  pub record CarriesOrder (a : AbiOrderData) : Type 0 where
    pub paid : must_from_big order.input_amount ≡ ok a.amount_in
    pub received : must_from_big order.output_amount ≡ ok a.amount_out
    pub nonce_kept : a.sender_nonce ≡ nonce
    pub origin_lem : a.origin_domain ≡ origin_domain % 2 ^ 32
    pub destination_lem : a.destination_domain ≡ destination_of
    pub deadline_lem : a.fill_deadline ≡ order.fill_deadline % 2 ^ 32
    pub sender_lem : a.sender ≡ padded_address (user_address g getenv (find_user order.user users))
    pub input_lem : a.input_token ≡ token_of (origin_domain % 2 ^ 64)
    pub words :
        IsWord a.sender
        × IsWord a.recipient
        × IsWord a.input_token
        × IsWord a.output_token
        × IsWord a.destination_settler
    pub to_evm : (destination_of ≡ starknet_sepolia_chain_id) ⊎ EvmWords a

  abbrev Built : OrderData → Type 0
  Built od =
      (od.origin_chain_id ≡ origin_domain)
      × (od.destination_chain_id ≡ destination_of)
      × (od.user ≡ order.user)
      × (od.fill_deadline ≡ order.fill_deadline)
      × (must_from_big order.output_amount ≡ ok (first_amount od.max_spent))
      × (must_from_big order.input_amount ≡ ok (first_amount od.min_received))
