-- ===== src/Evm/Sent.antt =====
-- Which transactions the EVM handler sends.
use oif_starknet.Prelude.{ℕ, ◌≡◌, refl, ◌⊎◌, inl, inr, List, [], ◌∷◌, arith, ◌==◌, not}
use oif_starknet.Prelude.Result.{ok}
use oif_starknet.Handler.{order_status_filled, wait_for_order_status}
use oif_starknet.Handler.Wait.{wait_for_order_status-Emits}
use oif_starknet.Prelude.Text.{Bytes, str_eq}
use oif_starknet.Prelude.BigInt.{to_uint64}
use oif_starknet.Types.{ParsedArgs, Output, FillInstruction}
use oif_starknet.Types.Address.{Address, Geth, to_evm_address}
use oif_starknet.EnvUtil.{Env}
use oif_starknet.Config.Networks.{Networks}
use oif_starknet.Chain.{
  Request, evm_order_status, evm_allowance, evm_nonce, evm_gas_price, evm_sign_approve,
  evm_send_approve, evm_fill, evm_settle, evm_wait_mined, evm_chain_id, starknet_invoke,
}
use oif_starknet.Chain.Emits.{
  Emits, emits_rules, Emits-if, Emits-pure, Emits-bind-wrapping-lift, Emits-bind, Emits-then,
  Emits-wrapping,
}
use oif_starknet.Evm.Client.{EvmClient}
use oif_starknet.Evm.Methods.{
  order_id_array, order_status_of, get_order_status, ensure_token_approval, approve_output,
  approve_outputs, setup_for, setup_approvals, fill_unfilled, fill_instruction, fill_order,
  settle_filled, settle_instruction, settle_order,
}

-- An output stands in a list.
abbrev pub Listed : Output → List Output → Type 0
Listed o [] = ⊥
Listed o (x ∷ rest) = (o ≡ x) ⊎ Listed o rest

module _ {Felt : Type 0} (g : Geth) (c : EvmClient Felt) (networks : Networks) (getenv : Env) where
  module _ (P : Request Felt → Type 0) where
    pub get_order_status-Emits :
        (args : ParsedArgs)
        → ((a : Address) (b : Bytes) → P (evm_order_status a b))
        → Emits P (get_order_status g c networks getenv args)
    unfolding get_order_status
    get_order_status-Emits args reads = by_instructions args.resolved_order.fill_instructions
      where
        by_instructions :
            (is : List FillInstruction) → Emits P (order_status_of g c networks getenv args is)
        by_instructions [] = search emits_rules
        by_instructions (i ∷ is) = search (emits_rules, reads) depth 12

    ensure_token_approval-Emits :
        (token spender : Address) (amount : ℕ)
        → P (evm_allowance token spender)
        → P evm_chain_id
        → P evm_nonce
        → P evm_gas_price
        → P evm_wait_mined
        → P (evm_sign_approve token spender amount)
        → P (evm_send_approve token spender amount)
        → Emits P (ensure_token_approval g c networks getenv token spender amount)
    unfolding ensure_token_approval
    ensure_token_approval-Emits token spender amount p1 p2 p3 p4 p5 p6 p7 =
        search emits_rules depth 24

  -- An approval belongs to an order: its spender is the address of the settler that the first fill
  -- instruction names, its token and its amount are those of an output of `MaxSpent` on the chain
  -- that this instruction names.
  abbrev pub ApprovalOf : ParsedArgs → Address → Address → ℕ → Type 0
  ApprovalOf args token spender amount =
      (i : FillInstruction) × (more : List FillInstruction) × (args.resolved_order.fill_instructions
        ≡ i ∷ more)
      × (to_evm_address g i.destination_settler ≡ ok spender)
      × (o : Output) × Listed o args.resolved_order.max_spent
      × (to_uint64 o.chain_id ≡ to_uint64 i.destination_chain_id)
      × (to_evm_address g o.token ≡ ok token)
      × (amount ≡ o.amount)

  -- A fill belongs to an order: it goes to the settler of the first fill instruction, with the
  -- order's identifier and that instruction's data.
  abbrev pub FillOf : ParsedArgs → Address → Bytes → Bytes → Type 0
  FillOf args settler order_id origin_data =
      (i : FillInstruction) × (more : List FillInstruction) × (args.resolved_order.fill_instructions
        ≡ i ∷ more)
      × (to_evm_address g i.destination_settler ≡ ok settler)
      × (order_id ≡ order_id_array g c networks getenv args)
      × (origin_data ≡ i.origin_data)

  abbrev pub SettleOf : ParsedArgs → Address → Bytes → Type 0
  SettleOf args settler order_id =
      (i : FillInstruction) × (more : List FillInstruction) × (args.resolved_order.fill_instructions
        ≡ i ∷ more)
      × (to_evm_address g i.destination_settler ≡ ok settler)
      × (order_id ≡ order_id_array g c networks getenv args)

  -- What a fill may ask of the chain: any read, the approvals that belong to the order, and the
  -- order's own fill.
  abbrev pub FillRequest : ParsedArgs → Request Felt → Type 0
  FillRequest args (evm_sign_approve token spender amount) = ApprovalOf args token spender amount
  FillRequest args (evm_send_approve token spender amount) = ApprovalOf args token spender amount
  FillRequest args (evm_fill settler order_id origin_data value) =
      FillOf args settler order_id origin_data
  FillRequest args (evm_settle settler order_id value) = ⊥
  FillRequest args (starknet_invoke contract function call_data) = ⊥
  FillRequest args _ = Unit

  -- What a settlement may ask of the chain: any read, and the order's own settlement.
  abbrev pub SettleRequest : ParsedArgs → Request Felt → Type 0
  SettleRequest args (evm_sign_approve token spender amount) = ⊥
  SettleRequest args (evm_send_approve token spender amount) = ⊥
  SettleRequest args (evm_fill settler order_id origin_data value) = ⊥
  SettleRequest args (evm_settle settler order_id value) = SettleOf args settler order_id
  SettleRequest args (starknet_invoke contract function call_data) = ⊥
  SettleRequest args _ = Unit

  module _ (args : ParsedArgs) (i : FillInstruction) (more : List FillInstruction)
      (settler : Address) (first : args.resolved_order.fill_instructions ≡ i ∷ more)
      (converts : to_evm_address g i.destination_settler ≡ ok settler) where
    approve_output-Emits :
        (o : Output)
        → Listed o args.resolved_order.max_spent
        → Emits
            (FillRequest args)
            (approve_output g c networks getenv (to_uint64 i.destination_chain_id) settler o)
    unfolding approve_output
    approve_output-Emits o listed =
        Emits-if (str_eq o.token []) _ _ (λ _. Emits-pure tt)
          λ _.
            Emits-if (not (to_uint64 o.chain_id == to_uint64 i.destination_chain_id)) _ _
              (λ _. Emits-pure tt)
              λ here. Emits-bind-wrapping-lift _ (to_evm_address g o.token) _ λ token is_token.
                Emits-wrapping _ _ (
                  approval token
                    (i, more, first, converts, o, listed, ground arith, is_token, refl))
      where
        approval :
            (token : Address)
            → ApprovalOf args token settler o.amount
            → Emits
                (FillRequest args)
                (ensure_token_approval g c networks getenv token settler o.amount)
        approval token belongs =
            ensure_token_approval-Emits (FillRequest args) token settler o.amount tt tt tt tt tt
              belongs belongs

    approve_outputs-Emits :
        (os : List Output)
        → ((o : Output) → Listed o os → Listed o args.resolved_order.max_spent)
        → Emits
            (FillRequest args)
            (approve_outputs g c networks getenv (to_uint64 i.destination_chain_id) settler os)
    unfolding approve_outputs
    approve_outputs-Emits [] sub = Emits-pure tt
    approve_outputs-Emits (o ∷ os) sub =
        Emits-then _ _ (approve_output-Emits o (sub o (inl refl)))
          (approve_outputs-Emits os (λ x m. sub x (inr m)))

    setup_approvals-Emits :
        Emits (FillRequest args) (setup_approvals g c networks getenv args settler)
    unfolding setup_approvals
    setup_approvals-Emits = simp first (
        by_outputs args.resolved_order.max_spent
          (approve_outputs-Emits args.resolved_order.max_spent (λ o m. m)))
      where
        by_outputs :
            (os : List Output)
            → Emits
                (FillRequest args)
                (approve_outputs g c networks getenv (to_uint64 i.destination_chain_id) settler os)
            → Emits (FillRequest args) (setup_for g c networks getenv args settler os (i ∷ more))
        by_outputs [] approved = unfold setup_for in search emits_rules
        by_outputs (o ∷ os) approved = unfold setup_for in search (emits_rules, tt) depth 8

    fill_unfilled-Emits :
        Emits (FillRequest args) (fill_unfilled g c networks getenv args settler i)
    unfolding fill_unfilled
    fill_unfilled-Emits = search (emits_rules, setup_approvals-Emits, own, tt) depth 20
      where
        own : FillOf args settler (order_id_array g c networks getenv args) i.origin_data
        own = (i, more, first, converts, refl, refl)

    settle_filled-Emits :
        (origin_domain : ℕ)
        → Emits
            (SettleRequest args)
            (settle_filled g c networks getenv args i settler origin_domain)
    unfolding settle_filled
    settle_filled-Emits origin_domain = search (emits_rules, own, tt) depth 20
      where
        own : SettleOf args settler (order_id_array g c networks getenv args)
        own = (i, more, first, converts, refl)

  -- Whatever the order and whatever the chain answers, a fill changes the chain only by approvals
  -- of the exact amounts of the order's own outputs to the order's own settler, and by the order's
  -- own fill transaction at that settler; it settles nothing; and it leaves the signer's value as
  -- it was, on errors and panics too.
  pub evm_fill_order-Emits :
      (args : ParsedArgs) → Emits (FillRequest args) (fill_order g c networks getenv args)
  unfolding fill_order fill_instruction
  evm_fill_order-Emits args = by_instructions args.resolved_order.fill_instructions refl
    where
      by_instructions :
          (is : List FillInstruction)
          → args.resolved_order.fill_instructions ≡ is
          → Emits (FillRequest args) (fill_instruction g c networks getenv args is)
      by_instructions [] first = search emits_rules
      by_instructions (i ∷ more) first =
          Emits-bind-wrapping-lift _ (to_evm_address g i.destination_settler) _ λ settler converts.
            Emits-bind _ _ (get_order_status-Emits (FillRequest args) args (λ a b. tt))
              λ status. search (emits_rules, fill_unfilled-Emits args i more settler first converts)

  -- A settlement changes the chain only by the order's own settle transaction at the order's own
  -- settler: it approves and fills nothing; and it leaves the signer's value as it was.
  pub evm_settle_order-Emits :
      (args : ParsedArgs) → Emits (SettleRequest args) (settle_order g c networks getenv args)
  unfolding settle_order settle_instruction
  evm_settle_order-Emits args = by_instructions args.resolved_order.fill_instructions refl
    where
      waits :
          (n delay : ℕ)
          → Emits (SettleRequest args) (
              wait_for_order_status c.cancelled
                (get_order_status g c networks getenv args)
                order_status_filled
                n
                delay)
      waits =
          wait_for_order_status-Emits (SettleRequest args) c.cancelled _ order_status_filled
            (get_order_status-Emits (SettleRequest args) args (λ a b. tt)) (λ n. tt)

      by_instructions :
          (is : List FillInstruction)
          → args.resolved_order.fill_instructions ≡ is
          → Emits (SettleRequest args) (settle_instruction g c networks getenv args is)
      by_instructions [] first = search emits_rules
      by_instructions (i ∷ more) first =
          Emits-bind-wrapping-lift _ (to_evm_address g i.destination_settler) _ λ settler converts.
            search (emits_rules, waits, settle_filled-Emits args i more settler first converts, tt)
              depth 16
