-- ===== src/Starknet/Sent.antt =====
-- Which transactions the Starknet handler sends.
use Prim.Native.String.{String}
use oif_starknet.Prelude.{ℕ, ◌≡◌, refl, ◌⊎◌, inl, inr, List, [], ◌∷◌, arith, ◌==◌, not}
use oif_starknet.Prelude.Result.{Result, ok, err, panic}
use oif_starknet.Prelude.Text.{str_eq}
use oif_starknet.Prelude.BigInt.{to_uint64}
use oif_starknet.Types.{ParsedArgs, Output, FillInstruction}
use oif_starknet.StarknetUtil.{
  Felts, add_u256, or_u256, convert_solidity_order_id_for_starknet, split_u256,
}
use oif_starknet.Config.Networks.{Networks}
use oif_starknet.Chain.{
  Request, starknet_order_status, starknet_allowance, starknet_invoke, starknet_wait_receipt,
  starknet_quote_gas, evm_sign_approve, evm_send_approve, evm_fill, evm_settle, wrapping, ask,
  ◌>>=◌, History, State, continue, fail, pure,
}
use oif_starknet.Chain.Emits.{
  Emits, emits_rules, Emits-if, Emits-pure, Emits-fail, Emits-bind-wrapping-lift, Emits-bind,
  Emits-then, Emits-wrapping, Emits-uint64_of, Emits-bind-gave, wrapping-gave,
}
use oif_starknet.Handler.{
  get_origin_domain, max_retry_attempts, initial_delay, order_status_filled, wait_for_order_status,
}
use oif_starknet.Handler.Wait.{wait_for_order_status-Emits}
use oif_starknet.Starknet.Client.{StarknetClient}
use oif_starknet.Starknet.Methods.{
  Texts, token_texts, eth_texts, eth_address, to_starknet_address, order_status_of,
  get_order_status, approve_above, ensure_token_approval, ensure_eth_approval, approve_output,
  approve_outputs, setup_for, setup_approvals, fill_calldata, send_fill, fill_unfilled,
  fill_instruction, fill_order, gas_of_answer, quote_gas_payment, settle_calldata, send_settle,
  settle_filled, settle_instruction, settle_order,
}

-- An output stands in a list.
abbrev pub Listed : Output → List Output → Type 0
Listed o [] = ⊥
Listed o (x ∷ rest) = (o ≡ x) ⊎ Listed o rest

module _ {Felt : Type 0} (fs : Felts Felt) (c : StarknetClient Felt) (networks : Networks) where
  -- The order's settler: the address that its first fill instruction names.
  abbrev pub SettlerOf : ParsedArgs → Felt → Type 0
  SettlerOf args settler =
      (i : FillInstruction) × (more : List FillInstruction) × (args.resolved_order.fill_instructions
        ≡ i ∷ more)
      × (to_starknet_address fs c networks i.destination_settler ≡ ok settler)

  abbrev pub approve_calldata : Felt → ℕ → List Felt
  approve_calldata spender amount =
      spender ∷ (split_u256 fs amount).0 ∷ (split_u256 fs amount).1 ∷ []

  -- Approve the exact amount of an output of `MaxSpent`, on the chain of the first fill
  -- instruction, to the order's settler.
  abbrev pub IsApproval : ParsedArgs → Felt → String → List Felt → Type 0
  IsApproval args contract function call_data =
      (i : FillInstruction) × (more : List FillInstruction) × (args.resolved_order.fill_instructions
        ≡ i ∷ more)
      × (settler : Felt) × (to_starknet_address fs c networks i.destination_settler ≡ ok settler)
      × (o : Output) × Listed o args.resolved_order.max_spent
      × (to_uint64 o.chain_id ≡ to_uint64 i.destination_chain_id)
      × (fs.hex_to_felt o.token ≡ ok contract)
      × (function ≡ "approve")
      × (call_data ≡ approve_calldata settler o.amount)

  -- The order's own fill.
  abbrev pub IsFill : ParsedArgs → Felt → String → List Felt → Type 0
  IsFill args contract function call_data =
      (i : FillInstruction) × (more : List FillInstruction) × (args.resolved_order.fill_instructions
        ≡ i ∷ more)
      × (to_starknet_address fs c networks i.destination_settler ≡ ok contract)
      × (id : Felt × Felt) × (convert_solidity_order_id_for_starknet fs args.order_id ≡ ok id)
      × (function ≡ "fill")
      × (call_data ≡ fill_calldata fs c networks id i.origin_data)

  -- What the client answers, at some history of requests, when it asks the order's settler for the
  -- gas payment of messages to the order's origin.
  abbrev pub IsQuoted : ParsedArgs → Felt → ℕ → Type 0
  IsQuoted args settler gas =
      (domain : ℕ) × (get_origin_domain networks args ≡ ok domain)
      × (before : History Felt) × (low : Felt) × (high : Felt) × (more : List Felt)
      × (c.call_quote_gas_payment settler domain before ≡ ok (low ∷ high ∷ more))
      × (gas ≡ or_u256 fs low high)

  -- Approve ETH of a quoted gas payment to the order's settler, or settle the order with such a gas
  -- payment.
  abbrev pub IsSettlement : ParsedArgs → Felt → String → List Felt → Type 0
  IsSettlement args contract function call_data =
      (settler : Felt) × SettlerOf args settler
      × (gas : ℕ) × IsQuoted args settler gas
      × ((fs.hex_to_felt eth_address ≡ ok contract)
            × (function ≡ "approve")
            × (call_data ≡ approve_calldata settler gas)
          ⊎ (contract ≡ settler)
            × (function ≡ "settle")
            × ((id : Felt × Felt) × (convert_solidity_order_id_for_starknet fs args.order_id
                  ≡ ok id)
                × (call_data ≡ settle_calldata fs c networks id gas)))

  -- A quote that succeeds gives the two answered elements as one number.
  quote-IsQuoted :
      (args : ParsedArgs) (settler : Felt) (domain gas : ℕ) (s : State Felt)
      → get_origin_domain networks args ≡ ok domain
      → (quote_gas_payment fs c networks domain settler s).0 ≡ ok gas
      → IsQuoted args settler gas
  unfolding quote_gas_payment gas_of_answer ◌>>=◌ continue wrapping ask fail pure
  quote-IsQuoted args settler domain gas s is_domain gave =
      by_answer (c.call_quote_gas_payment settler domain s.history) refl gave
    where
      by_answer :
          (r : Result (List Felt))
          → c.call_quote_gas_payment settler domain s.history ≡ r
          → ((wrapping "starknet quote_gas_payment call failed"
                  (ask (starknet_quote_gas settler domain) (λ h. r))
                >>= (λ resp. gas_of_answer fs c networks resp))
              s).0
            ≡ ok gas
          → IsQuoted args settler gas
      by_answer (ok []) e h = cc
      by_answer (ok (low ∷ [])) e h = cc
      by_answer (ok (low ∷ high ∷ more)) e h =
          (domain, is_domain, s.history, low, high, more, e, cc)
      by_answer (err x) e h = cc
      by_answer (panic p) e h = cc

  -- What a fill may ask of the chain: any read, the approvals that belong to the order, and the
  -- order's own fill.
  abbrev pub FillRequest : ParsedArgs → Request Felt → Type 0
  FillRequest args (starknet_invoke contract function call_data) =
      IsApproval args contract function call_data ⊎ IsFill args contract function call_data
  FillRequest args (evm_sign_approve token spender amount) = ⊥
  FillRequest args (evm_send_approve token spender amount) = ⊥
  FillRequest args (evm_fill settler order_id origin_data value) = ⊥
  FillRequest args (evm_settle settler order_id value) = ⊥
  FillRequest args _ = Unit

  abbrev pub SettleRequest : ParsedArgs → Request Felt → Type 0
  SettleRequest args (starknet_invoke contract function call_data) =
      IsSettlement args contract function call_data
  SettleRequest args (evm_sign_approve token spender amount) = ⊥
  SettleRequest args (evm_send_approve token spender amount) = ⊥
  SettleRequest args (evm_fill settler order_id origin_data value) = ⊥
  SettleRequest args (evm_settle settler order_id value) = ⊥
  SettleRequest args _ = Unit

  module _ (P : Request Felt → Type 0) where
    pub get_order_status-Emits :
        (args : ParsedArgs)
        → ((a b d : Felt) → P (starknet_order_status a b d))
        → Emits P (get_order_status fs c networks args)
    unfolding get_order_status
    get_order_status-Emits args reads = by_instructions args.resolved_order.fill_instructions
      where
        by_instructions :
            (is : List FillInstruction) → Emits P (order_status_of fs c networks args is)
        by_instructions [] = search emits_rules
        by_instructions (i ∷ is) = search (emits_rules, reads) depth 12

    approve_above-Emits :
        (texts : Texts) (join : Felt → Felt → ℕ) (token spender : Felt) (amount : ℕ)
        → P starknet_wait_receipt
        → P (starknet_invoke token "approve" (approve_calldata spender amount))
        → (resp : List Felt)
        → Emits P (approve_above fs c networks texts join token spender amount resp)
    unfolding approve_above
    approve_above-Emits texts join token spender amount p q [] = search emits_rules
    approve_above-Emits texts join token spender amount p q (low ∷ []) = search emits_rules
    approve_above-Emits texts join token spender amount p q (low ∷ high ∷ more) =
        search emits_rules depth 8

  module _ (args : ParsedArgs) (i : FillInstruction) (more : List FillInstruction) (settler : Felt)
      (first : args.resolved_order.fill_instructions ≡ i ∷ more)
      (converts : to_starknet_address fs c networks i.destination_settler ≡ ok settler) where
    approve_output-Emits :
        (o : Output)
        → Listed o args.resolved_order.max_spent
        → Emits
            (FillRequest args)
            (approve_output fs c networks (to_uint64 i.destination_chain_id) settler o)
    unfolding approve_output ensure_token_approval
    approve_output-Emits o listed =
        Emits-if (str_eq o.token []) _ _ (λ _. Emits-pure tt)
          λ _.
            Emits-if (not (to_uint64 o.chain_id == to_uint64 i.destination_chain_id)) _ _
              (λ _. Emits-pure tt)
              λ here. Emits-wrapping _ _ (
                Emits-bind-wrapping-lift _ (fs.hex_to_felt o.token) _ λ token is_token.
                  approval token (
                    inl (
                      i,
                      more,
                      first,
                      settler,
                      converts,
                      o,
                      listed,
                      ground arith,
                      is_token,
                      refl,
                      refl,
                    )))
      where
        approval :
            (token : Felt)
            → FillRequest args (starknet_invoke token "approve" (approve_calldata settler o.amount))
            → Emits (FillRequest args) (do
              resp ←
                  wrapping "starknet allowance call failed"
                    (ask (starknet_allowance token settler) (c.call_allowance token settler))
              approve_above fs c networks token_texts (add_u256 fs) token settler o.amount resp)
        approval token belongs =
            search
              (
                emits_rules,
                tt,
                approve_above-Emits (FillRequest args) token_texts (add_u256 fs) token settler
                    o.amount tt belongs,
              )
              depth 6

    approve_outputs-Emits :
        (os : List Output)
        → ((o : Output) → Listed o os → Listed o args.resolved_order.max_spent)
        → Emits
            (FillRequest args)
            (approve_outputs fs c networks (to_uint64 i.destination_chain_id) settler os)
    unfolding approve_outputs
    approve_outputs-Emits [] sub = Emits-pure tt
    approve_outputs-Emits (o ∷ os) sub =
        Emits-then _ _ (approve_output-Emits o (sub o (inl refl)))
          (approve_outputs-Emits os (λ x m. sub x (inr m)))

    setup_approvals-Emits : Emits (FillRequest args) (setup_approvals fs c networks args settler)
    unfolding setup_approvals
    setup_approvals-Emits = simp first (
        by_outputs args.resolved_order.max_spent
          (approve_outputs-Emits args.resolved_order.max_spent (λ o m. m)))
      where
        by_outputs :
            (os : List Output)
            → Emits
                (FillRequest args)
                (approve_outputs fs c networks (to_uint64 i.destination_chain_id) settler os)
            → Emits (FillRequest args) (setup_for fs c networks args settler os (i ∷ more))
        by_outputs [] approved = unfold setup_for in search emits_rules
        by_outputs (o ∷ os) approved = unfold setup_for in search (emits_rules, tt) depth 8

    fill_unfilled-Emits : Emits (FillRequest args) (fill_unfilled fs c networks args settler i)
    unfolding fill_unfilled
    fill_unfilled-Emits = Emits-then _ _ (Emits-wrapping _ _ setup_approvals-Emits) (
        Emits-bind-wrapping-lift _ (convert_solidity_order_id_for_starknet fs args.order_id) _
          λ id is_id. send id (inr (i, more, first, converts, id, is_id, refl, refl)))
      where
        send :
            (id : Felt × Felt)
            → FillRequest args
                (starknet_invoke settler "fill" (fill_calldata fs c networks id i.origin_data))
            → Emits (FillRequest args) (send_fill fs c networks args settler i id)
        send id belongs = unfold send_fill in search (emits_rules, belongs, tt) depth 12

    settle_filled-Emits : Emits (SettleRequest args) (settle_filled fs c networks args settler)
    unfolding settle_filled
    settle_filled-Emits =
        Emits-bind-wrapping-lift _ (get_origin_domain networks args) _ λ domain is_domain.
          Emits-bind _ _ (Emits-uint64_of args.resolved_order.origin_chain_id) λ _.
            Emits-bind-gave _ _ (Emits-wrapping _ _ (quote domain)) λ gas s gave.
              let quoted =
                quote-IsQuoted args settler domain gas s is_domain (wrapping-gave _ _ s gas gave) in
              Emits-then _ _ (Emits-wrapping _ _ (eth_approval gas quoted)) (
                Emits-bind-wrapping-lift _ (convert_solidity_order_id_for_starknet fs args.order_id)
                  _
                  λ id is_id.
                    send id gas (settler, own, gas, quoted, inr (refl, refl, (id, is_id, refl))))
      where
        own : SettlerOf args settler
        own = (i, more, first, converts)

        answered :
            (resp : List Felt) → Emits (SettleRequest args) (gas_of_answer fs c networks resp)
        answered [] = unfold gas_of_answer in search emits_rules
        answered (low ∷ []) = unfold gas_of_answer in search emits_rules
        answered (low ∷ high ∷ more') = unfold gas_of_answer in search emits_rules

        quote :
            (domain : ℕ)
            → Emits (SettleRequest args) (quote_gas_payment fs c networks domain settler)
        quote domain = unfold quote_gas_payment in search (emits_rules, answered, tt) depth 6

        eth_approval :
            (gas : ℕ)
            → IsQuoted args settler gas
            → Emits (SettleRequest args) (ensure_eth_approval fs c networks gas settler)
        eth_approval gas quoted =
            unfold ensure_eth_approval in
            Emits-bind-wrapping-lift _ (fs.hex_to_felt eth_address) _ λ eth is_eth.
              search
                (
                  emits_rules,
                  tt,
                  approve_above-Emits (SettleRequest args) eth_texts (or_u256 fs) eth settler gas tt
                      (settler, own, gas, quoted, inl (is_eth, refl, refl)),
                )
                depth 6

        send :
            (id : Felt × Felt) (gas : ℕ)
            → SettleRequest args
                (starknet_invoke settler "settle" (settle_calldata fs c networks id gas))
            → Emits (SettleRequest args) (send_settle fs c networks settler id gas)
        send id gas belongs = unfold send_settle in search (emits_rules, belongs, tt) depth 12

  -- Whatever the order and whatever the chain answers, a fill changes the chain only by approvals
  -- of the exact amounts of the order's own outputs to the order's own settler, and by the order's
  -- own fill call, whose data are the encoded identifier and the first instruction's origin data.
  pub starknet_fill_order-Emits :
      (args : ParsedArgs) → Emits (FillRequest args) (fill_order fs c networks args)
  unfolding fill_order fill_instruction
  starknet_fill_order-Emits args = by_instructions args.resolved_order.fill_instructions refl
    where
      by_instructions :
          (is : List FillInstruction)
          → args.resolved_order.fill_instructions ≡ is
          → Emits (FillRequest args) (fill_instruction fs c networks args is)
      by_instructions [] first = search emits_rules
      by_instructions (i ∷ more) first =
          Emits-bind-wrapping-lift _ (to_starknet_address fs c networks i.destination_settler) _
            λ settler converts.
              Emits-bind _ _ (get_order_status-Emits (FillRequest args) args (λ a b d. tt))
                λ status.
                  search (emits_rules, fill_unfilled-Emits args i more settler first converts)

  -- A settlement changes the chain only by approvals of ETH to the order's own settler, and by
  -- settle calls at that settler for the order's own identifier alone. The amount approved, and the
  -- gas payment of the call, is what the client answers, at some history of requests, when it asks
  -- this settler for the gas payment of the order's origin domain.
  pub starknet_settle_order-Emits :
      (args : ParsedArgs) → Emits (SettleRequest args) (settle_order fs c networks args)
  unfolding settle_order settle_instruction
  starknet_settle_order-Emits args = by_instructions args.resolved_order.fill_instructions refl
    where
      waits :
          (n delay : ℕ)
          → Emits (SettleRequest args) (
              wait_for_order_status c.cancelled
                (get_order_status fs c networks args)
                order_status_filled
                n
                delay)
      waits =
          wait_for_order_status-Emits (SettleRequest args) c.cancelled _ order_status_filled
            (get_order_status-Emits (SettleRequest args) args (λ a b d. tt)) (λ n. tt)

      by_instructions :
          (is : List FillInstruction)
          → args.resolved_order.fill_instructions ≡ is
          → Emits (SettleRequest args) (settle_instruction fs c networks args is)
      by_instructions [] first = search emits_rules
      by_instructions (i ∷ more) first =
          Emits-bind-wrapping-lift _ (to_starknet_address fs c networks i.destination_settler) _
            λ settler converts.
              Emits-bind _ _ (Emits-wrapping _ _ (waits max_retry_attempts initial_delay)) λ status.
                Emits-if (not (str_eq status order_status_filled)) _ _ (λ _. Emits-fail _)
                  (λ _. settle_filled-Emits args i more settler first converts)
