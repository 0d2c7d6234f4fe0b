-- ===== src/Evm/Methods.antt =====
-- The methods of `HyperlaneEVM`.
use oif_starknet.Prelude.{
  ℕ, List, [], ◌∷◌, Option, none, some, not, ◌&&◌, ltb, leb, ◌==◌, if◌then◌else◌, length, take,
}
use oif_starknet.Prelude.Result.{Result}
use oif_starknet.Prelude.Text.{Bytes, GoString, str, str_eq}
use oif_starknet.Prelude.BigInt.{set_bytes, to_uint64, to_uint32}
use oif_starknet.Types.{ParsedArgs, Output, FillInstruction}
use oif_starknet.Types.Address.{Address, Geth, to_evm_address, copy_at, zero_bytes32}
use oif_starknet.EnvUtil.{Env, is_devnet}
use oif_starknet.Config.Networks.{Networks, lookup_network}
use oif_starknet.Chain.{
  evm_order_status, evm_allowance, evm_nonce, evm_gas_price, evm_sign_approve, evm_send_approve,
  evm_bind, evm_fill, evm_quote_gas, evm_settle, evm_wait_mined, evm_chain_id, pause, M, pure, fail,
  lift, ask, wrapping, attempt, with_signer_value, ◌>>=◌, ◌>>◌, uint64_of, signer_value,
}
use oif_starknet.Handler.{
  OrderAction, settle, ChainHandler, order_status_filled, order_status_settled,
  order_status_unknown, max_retry_attempts, initial_delay, get_origin_domain, wait_for_order_status,
}
use oif_starknet.Evm.Client.{EvmClient}

module _ {Felt : Type 0} (g : Geth) (c : EvmClient Felt) (networks : Networks) (getenv : Env) where
  -- `var orderID [32]byte; copy(orderID[:], common.FromHex(args.OrderID))`
  unfoldable pub order_id_array : ParsedArgs → Bytes
  order_id_array args = copy_at 0 (g.from_hex args.order_id)

  unfoldable pub interpret_status_hash : Bytes → GoString
  interpret_status_hash status_hash =
      if str_eq status_hash zero_bytes32
      then order_status_unknown
      else if str_eq status_hash
          (g.hex_to_hash (str "0x46494c4c45440000000000000000000000000000000000000000000000000000"))
      then order_status_filled
      else if str_eq status_hash
          (g.hex_to_hash (str "0x534554544c454400000000000000000000000000000000000000000000000000"))
      then order_status_settled
      else g.hash_hex status_hash

  unfoldable pub order_status_of : ParsedArgs → List FillInstruction → M Felt GoString
  unfolding interpret_status_hash
  order_status_of args [] = fail "no fill instructions found"
  order_status_of args (instruction ∷ more) = do
    wrapping "failed to parse orderStatus ABI" (lift (c.abi_json "orderStatus"))
    wrapping "failed to pack orderStatus" (lift (c.abi_pack "orderStatus"))
    settler ←
        wrapping "failed to convert destination settler to EVM address"
          (lift (to_evm_address g instruction.destination_settler))
    res ← wrapping "orderStatus call failed" (
        ask (evm_order_status settler (order_id_array args))
          (c.call_order_status settler (order_id_array args)))
    if ltb (length res) 32
        then fail "invalid orderStatus result length"
        else pure (interpret_status_hash (g.bytes_to_hash (take 32 res)))

  unfoldable pub get_order_status : ParsedArgs → M Felt GoString
  unfolding order_status_of
  get_order_status args = order_status_of args args.resolved_order.fill_instructions

  -- The part of `ensureTokenApproval` behind the test of the current allowance.
  unfoldable pub send_approval : Address → Address → ℕ → M Felt (Unit {0})
  send_approval token spender amount = do
    wrapping "failed to parse approve ABI" (lift (c.abi_json "approve"))
    wrapping "failed to pack approve call" (lift (c.abi_pack "approve"))
    nonce ← wrapping "failed to get nonce" (ask evm_nonce c.pending_nonce_at)
    gas_price ← wrapping "failed to get gas price" (ask evm_gas_price c.suggest_gas_price)
    wrapping "failed to sign approve transaction"
        (ask (evm_sign_approve token spender amount) (c.sign_approve token spender amount))
    wrapping "failed to send approve transaction"
        (ask (evm_send_approve token spender amount) (c.send_approve token spender amount))
    status ← wrapping "failed to wait for approve confirmation" (ask evm_wait_mined c.wait_mined)
    if not (status == 1) then fail "approve transaction failed" else pure tt

  unfoldable pub ensure_token_approval : Address → Address → ℕ → M Felt (Unit {0})
  unfolding send_approval
  ensure_token_approval token spender amount = do
    wrapping "failed to parse allowance ABI" (lift (c.abi_json "allowance"))
    wrapping "failed to pack allowance call" (lift (c.abi_pack "allowance"))
    result ←
        wrapping "allowance call failed"
          (ask (evm_allowance token spender) (c.call_allowance token spender))
    if length result == 0
        then (do attempt (ask evm_chain_id c.chain_id); pure tt)
        else if ltb (length result) 32
        then fail "invalid allowance result length"
        else if leb amount (set_bytes result)
        then pure tt
        else send_approval token spender amount

  -- One round of the loop of `setupApprovals`.
  unfoldable pub approve_output : ℕ → Address → Output → M Felt (Unit {0})
  approve_output destination_chain_id settler max_spent =
      if str_eq max_spent.token []
      then pure tt
      else if not (to_uint64 max_spent.chain_id == destination_chain_id)
      then pure tt
      else do
        token ←
            wrapping "failed to convert token address for approval"
              (lift (to_evm_address g max_spent.token))
        wrapping "approval failed for token" (ensure_token_approval token settler max_spent.amount)

  unfoldable pub approve_outputs : ℕ → Address → List Output → M Felt (Unit {0})
  approve_outputs destination_chain_id settler [] = pure tt
  approve_outputs destination_chain_id settler (max_spent ∷ rest) = do
    approve_output destination_chain_id settler max_spent
    approve_outputs destination_chain_id settler rest

  unfoldable pub setup_for :
      ParsedArgs → Address → List Output → List FillInstruction → M Felt (Unit {0})
  unfolding approve_outputs
  setup_for args settler [] instructions = pure tt
  setup_for args settler (o ∷ outputs) [] = fail "no fill instructions found"
  setup_for args settler (o ∷ outputs) (instruction ∷ more) = do
    origin_chain_id ← uint64_of args.resolved_order.origin_chain_id
    approve_outputs (to_uint64 instruction.destination_chain_id) settler (o ∷ outputs)
    ask (pause 1000) (λ h. Result.ok tt)

  unfoldable pub setup_approvals : ParsedArgs → Address → M Felt (Unit {0})
  unfolding setup_for
  setup_approvals args settler =
      setup_for args settler args.resolved_order.max_spent args.resolved_order.fill_instructions

  -- The value to fill with: the amount of the first output, if that is the native token.
  unfoldable pub fill_value : List Output → Option ℕ → Option ℕ
  fill_value [] value = value
  fill_value (o ∷ outputs) value = if str_eq o.token [] then some o.amount else value

  -- The fill transaction and its confirmation.
  unfoldable pub send_fill : ParsedArgs → Address → FillInstruction → M Felt OrderAction
  send_fill args settler instruction = do
    wrapping "failed to bind contract" (ask (evm_bind settler) (c.new_hyperlane7683 settler))
    value ← signer_value
    wrapping "fill transaction failed" (
        ask (evm_fill settler (order_id_array args) instruction.origin_data value)
          (c.contract_fill settler (order_id_array args) instruction.origin_data value))
    status ← wrapping "failed to wait for fill confirmation" (ask evm_wait_mined c.wait_mined)
    if status == 1 then pure settle else fail "fill transaction failed with status"

  -- The part of `Fill` behind the check of the status.
  unfoldable pub fill_unfilled : ParsedArgs → Address → FillInstruction → M Felt OrderAction
  unfolding send_fill
  fill_unfilled args settler instruction = do
    wrapping "failed to setup approvals" (setup_approvals args settler)
    origin_chain_id ← uint64_of args.resolved_order.origin_chain_id
    value ← signer_value
    with_signer_value (fill_value args.resolved_order.max_spent value)
        (send_fill args settler instruction)

  unfoldable pub fill_instruction : ParsedArgs → List FillInstruction → M Felt OrderAction
  unfolding fill_unfilled
  fill_instruction args [] = fail "no fill instructions found"
  fill_instruction args (instruction ∷ more) = do
    settler ←
        wrapping "failed to convert destination settler to EVM address"
          (lift (to_evm_address g instruction.destination_settler))
    status ← get_order_status args
    if str_eq status order_status_filled
        then pure settle
        else if str_eq status order_status_settled
        then pure settle
        else fill_unfilled args settler instruction

  unfoldable pub fill_order : ParsedArgs → M Felt OrderAction
  unfolding fill_instruction
  fill_order args = fill_instruction args args.resolved_order.fill_instructions

  -- `uint32(config.Networks["Starknet"].HyperlaneDomain)`: 0 if the map has no such network.
  unfoldable pub starknet_domain : ℕ
  starknet_domain = elim (lookup_network (str "Starknet") networks) [
    | none ↦ 0
    | some n ↦ to_uint32 n.hyperlane_domain
  ]

  -- The settle transaction and its confirmation, with the quoted gas payment as value.
  unfoldable pub send_settle : ParsedArgs → Address → ℕ → M Felt (Unit {0})
  send_settle args settler gas_payment = with_signer_value (some gas_payment) (do
    value ← signer_value
    wrapping "settle tx failed" (
        ask (evm_settle settler (order_id_array args) value)
          (c.contract_settle settler (order_id_array args) value))
    status ← wrapping "waiting settle failed" (ask evm_wait_mined c.wait_mined)
    if status == 0 then fail "settle transaction failed" else pure tt)

  -- The part of `Settle` behind the test for a Starknet origin on a live network.
  unfoldable pub settle_filled : ParsedArgs → FillInstruction → Address → ℕ → M Felt (Unit {0})
  unfolding send_settle
  settle_filled args instruction settler origin_domain = do
    origin_chain_id ← uint64_of args.resolved_order.origin_chain_id
    gas_payment ← wrapping "quoteGasPayment failed" (
        ask (evm_quote_gas settler origin_domain)
          (c.contract_quote_gas_payment settler origin_domain))
    send_settle args settler gas_payment

  unfoldable pub settle_instruction : ParsedArgs → List FillInstruction → M Felt (Unit {0})
  unfolding settle_filled starknet_domain
  settle_instruction args [] = fail "no fill instructions found"
  settle_instruction args (instruction ∷ more) = do
    settler ←
        wrapping "failed to convert destination settler to EVM address"
          (lift (to_evm_address g instruction.destination_settler))
    status ← wrapping "failed to get order status after retries" (
        wait_for_order_status c.cancelled (get_order_status args) order_status_filled
          max_retry_attempts initial_delay)
    if not (str_eq status order_status_filled)
        then fail "order status must be filled in order to settle"
        else do
          wrapping "failed to bind contract" (ask (evm_bind settler) (c.new_hyperlane7683 settler))
          origin_domain ←
              wrapping "failed to get origin domain" (lift (get_origin_domain networks args))
          if (origin_domain == starknet_domain) && not (is_devnet getenv)
              then pure tt
              else settle_filled args instruction settler origin_domain

  unfoldable pub settle_order : ParsedArgs → M Felt (Unit {0})
  unfolding settle_instruction
  settle_order args = settle_instruction args args.resolved_order.fill_instructions

  -- The methods, as the solver calls them.
  abbrev pub evm_handler : ChainHandler Felt
  evm_handler = record {
    fill_order = fill_order;
    settle_order = settle_order;
    get_order_status = get_order_status;
  }
