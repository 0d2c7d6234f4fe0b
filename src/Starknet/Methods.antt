-- ===== src/Starknet/Methods.antt =====
-- The methods of `HyperlaneStarknet`.
use Prim.Native.String.{String}
use oif_starknet.Prelude.{ℕ, List, [], ◌∷◌, ◌++◌, not, ◌||◌, leb, ◌==◌, if◌then◌else◌, length}
use oif_starknet.Prelude.Result.{Result, wrapping as wrapping_result}
use oif_starknet.Prelude.Text.{Bytes, GoString, str, str_eq}
use oif_starknet.Prelude.BigInt.{to_uint64}
use oif_starknet.Types.{ParsedArgs, Output, FillInstruction}
use oif_starknet.StarknetUtil.{
  Felts, convert_solidity_order_id_for_starknet, bytes_to_u128_felts, split_u256,
  convert_big_int_to_u256_felts, or_u256, add_u256,
}
use oif_starknet.Config.Networks.{Networks}
use oif_starknet.Chain.{
  starknet_order_status, starknet_allowance, starknet_quote_gas, starknet_invoke,
  starknet_wait_receipt, pause, M, pure, fail, lift, ask, wrapping, ◌>>=◌, ◌>>◌, uint64_of,
}
use oif_starknet.Handler.{
  OrderAction, settle, ChainHandler, order_status_filled, order_status_settled,
  order_status_unknown, max_retry_attempts, initial_delay, get_origin_domain, wait_for_order_status,
}
use oif_starknet.Starknet.Client.{StarknetClient}

-- The token in which Starknet's gas is paid.
abbrev pub eth_address : GoString
eth_address = str "0x49d36570d4e46f48e99674bd3fcc84644ddd6b96f7c741b1562b82f9e004dc7"

unfoldable pub interpret_starknet_status : GoString → GoString
interpret_starknet_status status =
    if str_eq status (str "0x0") || str_eq status (str "0")
    then order_status_unknown
    else if str_eq status (str "0x46494c4c4544")
    then order_status_filled
    else if str_eq status (str "0x534554544c4544")
    then order_status_settled
    else status

-- The error texts in which the two approval methods differ.
pub record Texts : Type 0 where
  pub too_short : String
  pub send_failed : String
  pub wait_failed : String

abbrev pub token_texts : Texts
token_texts = record {
  too_short = "starknet allowance response too short";
  send_failed = "starknet token approve send failed";
  wait_failed = "starknet token approve wait failed";
}

abbrev pub eth_texts : Texts
eth_texts = record {
  too_short = "starknet ETH allowance returned insufficient data";
  send_failed = "starknet ETH approve send failed";
  wait_failed = "starknet ETH approve wait failed";
}

module _ {Felt : Type 0} (fs : Felts Felt) (c : StarknetClient Felt) (networks : Networks) where
  -- `types.ToStarknetAddress`
  unfoldable pub to_starknet_address : GoString → Result Felt
  to_starknet_address address =
      wrapping_result "failed to convert address to felt" (fs.hex_to_felt address)

  -- No element in the answer means that the status is unknown.
  unfoldable pub status_of_answer : List Felt → GoString
  unfolding interpret_starknet_status
  status_of_answer [] = order_status_unknown
  status_of_answer (status ∷ more) = interpret_starknet_status (fs.to_string status)

  unfoldable pub order_status_of : ParsedArgs → List FillInstruction → M Felt GoString
  unfolding status_of_answer
  order_status_of args [] = fail "no fill instructions found"
  order_status_of args (instruction ∷ more) = do
    settler ←
        wrapping "failed to convert hex Hyperlane address to felt"
          (lift (to_starknet_address instruction.destination_settler))
    id ←
        wrapping "failed to convert solidity order id for cairo"
          (lift (convert_solidity_order_id_for_starknet fs args.order_id))
    resp ← ask (starknet_order_status settler id.0 id.1) (c.call_order_status settler id.0 id.1)
    pure (status_of_answer resp)

  unfoldable pub get_order_status : ParsedArgs → M Felt GoString
  unfolding order_status_of
  get_order_status args = order_status_of args args.resolved_order.fill_instructions

  -- The part of the two approval methods behind the test of the current allowance: approve the
  -- exact amount, and wait.
  unfoldable pub send_approval : Texts → Felt → Felt → ℕ → M Felt (Unit {0})
  send_approval texts token spender amount =
      let (low, high) = split_u256 fs amount in
      do
        wrapping texts.send_failed (
            ask (starknet_invoke token "approve" (spender ∷ low ∷ high ∷ []))
              (c.send_invoke token "approve" (spender ∷ low ∷ high ∷ [])))
        wrapping texts.wait_failed (ask starknet_wait_receipt c.wait_for_receipt)

  -- The answered allowance, two elements at least, is joined by `join`.
  unfoldable pub approve_above :
      Texts → (Felt → Felt → ℕ) → Felt → Felt → ℕ → List Felt → M Felt (Unit {0})
  unfolding send_approval
  approve_above texts join token spender amount (low ∷ high ∷ more) =
      if leb amount (join low high) then pure tt else send_approval texts token spender amount
  approve_above texts join token spender amount resp = fail texts.too_short

  unfoldable pub ensure_token_approval : GoString → ℕ → Felt → M Felt (Unit {0})
  unfolding approve_above
  ensure_token_approval token_hex amount spender = do
    token ← wrapping "invalid Starknet token address" (lift (fs.hex_to_felt token_hex))
    resp ←
        wrapping "starknet allowance call failed"
          (ask (starknet_allowance token spender) (c.call_allowance token spender))
    approve_above token_texts (add_u256 fs) token spender amount resp

  unfoldable pub ensure_eth_approval : ℕ → Felt → M Felt (Unit {0})
  unfolding approve_above
  ensure_eth_approval amount spender = do
    eth ← wrapping "failed to convert ETH address to felt" (lift (fs.hex_to_felt eth_address))
    resp ←
        wrapping "starknet ETH allowance call failed"
          (ask (starknet_allowance eth spender) (c.call_allowance eth spender))
    approve_above eth_texts (or_u256 fs) eth spender amount resp

  -- One round of the loop of `setupApprovals`.
  unfoldable pub approve_output : ℕ → Felt → Output → M Felt (Unit {0})
  approve_output destination_chain_id settler max_spent =
      if str_eq max_spent.token []
      then pure tt
      else if not (to_uint64 max_spent.chain_id == destination_chain_id)
      then pure tt
      else wrapping "starknet approval failed for token"
          (ensure_token_approval max_spent.token max_spent.amount settler)

  unfoldable pub approve_outputs : ℕ → Felt → List Output → M Felt (Unit {0})
  approve_outputs destination_chain_id settler [] = pure tt
  approve_outputs destination_chain_id settler (max_spent ∷ rest) = do
    approve_output destination_chain_id settler max_spent
    approve_outputs destination_chain_id settler rest

  unfoldable pub setup_for :
      ParsedArgs → Felt → List Output → List FillInstruction → M Felt (Unit {0})
  setup_for args settler [] instructions = pure tt
  setup_for args settler (o ∷ outputs) [] = fail "no fill instructions found"
  setup_for args settler (o ∷ outputs) (instruction ∷ more) = do
    origin_chain_id ← uint64_of args.resolved_order.origin_chain_id
    approve_outputs (to_uint64 instruction.destination_chain_id) settler (o ∷ outputs)
    ask (pause 1000) (λ h. Result.ok tt)

  unfoldable pub setup_approvals : ParsedArgs → Felt → M Felt (Unit {0})
  unfolding setup_for
  setup_approvals args settler =
      setup_for args settler args.resolved_order.max_spent args.resolved_order.fill_instructions

  -- The order identifier in two elements, the origin data by its size, its number of words and
  -- the words, and empty filler data.
  unfoldable pub fill_calldata : Felt × Felt → Bytes → List Felt
  fill_calldata id origin_data =
      let words = bytes_to_u128_felts fs origin_data in
      id.0
      ∷ id.1
      ∷ fs.uint64_to_felt (length origin_data)
      ∷ fs.uint64_to_felt (length words)
      ∷ (words ++ fs.uint64_to_felt 0 ∷ fs.uint64_to_felt 0 ∷ [])

  -- The fill transaction and its confirmation.
  unfoldable pub send_fill : ParsedArgs → Felt → FillInstruction → Felt × Felt → M Felt OrderAction
  send_fill args settler instruction id = do
    wrapping "starknet fill send failed" (
        ask (starknet_invoke settler "fill" (fill_calldata id instruction.origin_data))
          (c.send_invoke settler "fill" (fill_calldata id instruction.origin_data)))
    origin_chain_id ← uint64_of args.resolved_order.origin_chain_id
    wrapping "starknet fill wait failed" (ask starknet_wait_receipt c.wait_for_receipt)
    pure settle

  -- The part of `Fill` behind the check of the status.
  unfoldable pub fill_unfilled : ParsedArgs → Felt → FillInstruction → M Felt OrderAction
  unfolding send_fill
  fill_unfilled args settler instruction = do
    wrapping "failed to setup approvals" (setup_approvals args settler)
    id ←
        wrapping "failed to convert solidity order ID for starknet"
          (lift (convert_solidity_order_id_for_starknet fs args.order_id))
    send_fill args settler instruction id

  unfoldable pub fill_instruction : ParsedArgs → List FillInstruction → M Felt OrderAction
  unfolding fill_unfilled
  fill_instruction args [] = fail "no fill instructions found"
  fill_instruction args (instruction ∷ more) = do
    settler ←
        wrapping "failed to convert destination settler to felt"
          (lift (to_starknet_address instruction.destination_settler))
    status ← get_order_status args
    if str_eq status order_status_filled
        then pure settle
        else if str_eq status order_status_settled
        then pure settle
        else fill_unfilled args settler instruction

  unfoldable pub fill_order : ParsedArgs → M Felt OrderAction
  unfolding fill_instruction
  fill_order args = fill_instruction args args.resolved_order.fill_instructions

  -- The answered gas payment, in two elements.
  unfoldable pub gas_of_answer : List Felt → M Felt ℕ
  gas_of_answer (low ∷ high ∷ more) = pure (or_u256 fs low high)
  gas_of_answer resp = fail "starknet quote_gas_payment returned insufficient data"

  unfoldable pub quote_gas_payment : ℕ → Felt → M Felt ℕ
  unfolding gas_of_answer
  quote_gas_payment origin_domain hyperlane_address = do
    resp ← wrapping "starknet quote_gas_payment call failed" (
        ask (starknet_quote_gas hyperlane_address origin_domain)
          (c.call_quote_gas_payment hyperlane_address origin_domain))
    gas_of_answer resp

  -- An array with the one order identifier, and the gas payment.
  unfoldable pub settle_calldata : Felt × Felt → ℕ → List Felt
  settle_calldata id gas_payment =
      let (gas_low, gas_high) = convert_big_int_to_u256_felts fs gas_payment in
      fs.uint64_to_felt 1 ∷ id.0 ∷ id.1 ∷ gas_low ∷ gas_high ∷ []

  -- The settle transaction and its confirmation.
  unfoldable pub send_settle : Felt → Felt × Felt → ℕ → M Felt (Unit {0})
  send_settle settler id gas_payment = do
    wrapping "starknet settle send failed" (
        ask (starknet_invoke settler "settle" (settle_calldata id gas_payment))
          (c.send_invoke settler "settle" (settle_calldata id gas_payment)))
    wrapping "starknet settle wait failed" (ask starknet_wait_receipt c.wait_for_receipt)

  -- The part of `Settle` behind the check of the status.
  unfoldable pub settle_filled : ParsedArgs → Felt → M Felt (Unit {0})
  unfolding send_settle
  settle_filled args settler = do
    origin_domain ← wrapping "failed to get origin domain" (lift (get_origin_domain networks args))
    origin_chain_id ← uint64_of args.resolved_order.origin_chain_id
    gas_payment ← wrapping "failed to quote gas payment" (quote_gas_payment origin_domain settler)
    wrapping "ETH approval failed for settlement gas" (ensure_eth_approval gas_payment settler)
    id ←
        wrapping "failed to convert solidity order ID for starknet"
          (lift (convert_solidity_order_id_for_starknet fs args.order_id))
    send_settle settler id gas_payment

  unfoldable pub settle_instruction : ParsedArgs → List FillInstruction → M Felt (Unit {0})
  unfolding settle_filled
  settle_instruction args [] = fail "no fill instructions found"
  settle_instruction args (instruction ∷ more) = do
    settler ←
        wrapping "failed to convert destination settler to felt"
          (lift (to_starknet_address instruction.destination_settler))
    status ← wrapping "failed to get order status after retries" (
        wait_for_order_status c.cancelled (get_order_status args) order_status_filled
          max_retry_attempts initial_delay)
    if not (str_eq status order_status_filled)
        then fail "order status must be filled in order to settle"
        else settle_filled args settler

  unfoldable pub settle_order : ParsedArgs → M Felt (Unit {0})
  unfolding settle_instruction
  settle_order args = settle_instruction args args.resolved_order.fill_instructions

  -- The methods, as the solver calls them.
  abbrev pub starknet_handler : ChainHandler Felt
  starknet_handler = record {
    fill_order = fill_order;
    settle_order = settle_order;
    get_order_status = get_order_status;
  }
