-- ===== src/Solver/Sends.antt =====
-- What the solver sends to the chains for an order.
use oif_starknet.Prelude.{
  ℕ, ◌≡◌, refl, not, List, [], ◌∷◌, Option, none, some, ◌||◌, ◌==◌, if_cases,
}
use oif_starknet.Prelude.Result.{Result, ok, err, panic, Ensures}
use oif_starknet.Prelude.Text.{str_eq}
use oif_starknet.Prelude.BigInt.{to_uint64}
use oif_starknet.Types.{ParsedArgs, FillInstruction, AllowBlockLists}
use oif_starknet.Types.AllowBlock.{is_allowed_intent}
use oif_starknet.Types.Address.{Geth}
use oif_starknet.EnvUtil.{
  Env, get_starknet_solver_address, get_starknet_solver_public_key, get_starknet_solver_private_key,
}
use oif_starknet.Config.Networks.{NetworkConfig, Networks}
use oif_starknet.StarknetUtil.{Felts}
use oif_starknet.Chain.{M, State, lift}
use oif_starknet.Logutil.{log_order_processing}
use oif_starknet.Chain.Emits.{
  Grows, Emits, Emits-then, Emits-pure, Emits-ask, Emits-lift, Grows-none,
}
use oif_starknet.Handler.{OrderAction, settle, complete, error, ChainHandler}
use oif_starknet.Evm.Client.{EvmClient}
use oif_starknet.Starknet.Client.{StarknetClient}
use oif_starknet.Rules.Clients.{BalanceClients, Uint256}
use oif_starknet.Rules.Reads.{evaluate_all-Emits}
use oif_starknet.Solver.Monad.{Solver, Both, S, return, run, ◌>>◌}
use oif_starknet.Solver.Process.{
  Connections, names_starknet_chain, is_evm_chain, get_network_config_by_chain_id, find_handler,
  with_account, with_address, with_provider, new_hyperlane_starknet, new_evm_handler, or_new_evm,
  get_evm_handler, or_new_starknet, get_starknet_handler, operate_on, execute_chain_operation,
  after_fill, fill_loop, fill_from, fill, settle_operation, settle_loop, settle_from, settle_order,
  after_action, process_intent,
}
use oif_starknet.Solver.Keeps.{
  IsSafe, AllSafe, NoneOrSafe, HasSafe, Keeps, Any, Keeps-return, Keeps-refuse, Keeps-run,
  Keeps-wrapped, Keeps-if, Keeps-bind, Keeps-then,
}
use oif_starknet.Solver.Requests.{
  EvmObtained, StarknetObtained, OrderRequest, reads, evm_handler-IsSafe, starknet_handler-IsSafe,
  nil_handler-IsSafe,
}

module _ {Felt U : Type 0} (g : Geth) (fs : Felts Felt) (bc : BalanceClients Felt) (u : Uint256 U)
    (networks : Networks) (getenv : Env) (conn : Connections Felt) (lists : AllowBlockLists) where
  abbrev Safe : ChainHandler Felt → Type 0
  Safe h = IsSafe (OrderRequest g fs networks getenv conn) h

  abbrev KeepsFor : (args : ParsedArgs) {A : Type 0} (Q : A → Type 0) → S Felt A → Type 0
  KeepsFor args Q m = Keeps (OrderRequest g fs networks getenv conn) args Q m

  with_account-IsSafe :
      (r : Result (StarknetClient Felt))
      → ((c : StarknetClient Felt) → r ≡ ok c → StarknetObtained g fs networks getenv conn c)
      → Safe (with_account g fs bc u networks getenv conn lists r)
  unfolding with_account
  with_account-IsSafe (ok c) from =
      starknet_handler-IsSafe g fs networks getenv conn c (from c refl)
  with_account-IsSafe (err e) from = nil_handler-IsSafe g fs networks getenv conn
  with_account-IsSafe (panic p) from = nil_handler-IsSafe g fs networks getenv conn

  with_address-IsSafe :
      (n : NetworkConfig) (r : Result Felt)
      → Safe (with_address g fs bc u networks getenv conn lists n r)
  unfolding with_address
  with_address-IsSafe n (ok address) =
      if_cases Safe (conn.reads_key (get_starknet_solver_private_key getenv)) _ _
        (λ _.
          with_account-IsSafe _
            (λ c e. (n.rpc_url, address, get_starknet_solver_public_key getenv, e)))
        (λ _. nil_handler-IsSafe g fs networks getenv conn)
  with_address-IsSafe n (err e) = nil_handler-IsSafe g fs networks getenv conn
  with_address-IsSafe n (panic p) = nil_handler-IsSafe g fs networks getenv conn

  with_provider-IsSafe :
      (n : NetworkConfig) (r : Result (Unit {0}))
      → Safe (with_provider g fs bc u networks getenv conn lists n r)
  unfolding with_provider
  with_provider-IsSafe n (ok t) =
      if_cases Safe
        (str_eq (get_starknet_solver_public_key getenv) []
          || str_eq (get_starknet_solver_address getenv) []
          || str_eq (get_starknet_solver_private_key getenv) [])
        _ _ (λ _. nil_handler-IsSafe g fs networks getenv conn) (λ _. with_address-IsSafe n _)
  with_provider-IsSafe n (err e) = nil_handler-IsSafe g fs networks getenv conn
  with_provider-IsSafe n (panic p) = nil_handler-IsSafe g fs networks getenv conn

  find_handler-IsSafe :
      (id : ℕ) (l : List (ℕ × ChainHandler Felt))
      → AllSafe (OrderRequest g fs networks getenv conn) l
      → NoneOrSafe (OrderRequest g fs networks getenv conn) (find_handler id l)
  unfolding find_handler
  find_handler-IsSafe id [] h = tt
  find_handler-IsSafe id ((k, x) ∷ l) h =
      if_cases (NoneOrSafe (OrderRequest g fs networks getenv conn)) (k == id) _ _ (λ _. h.0)
        (λ _. find_handler-IsSafe id l h.1)

  module _ (args : ParsedArgs) where
    get_evm_handler-Keeps :
        (chain_id : ℕ)
        → KeepsFor args Safe (get_evm_handler g fs bc u networks getenv conn lists chain_id)
    unfolding get_evm_handler new_evm_handler or_new_evm return
    get_evm_handler-Keeps chain_id = record {
      at = λ f s h.
          by_cache f s h (find_handler (to_uint64 chain_id) f.evm_handlers)
            (find_handler-IsSafe (to_uint64 chain_id) f.evm_handlers h.0);
    }
      where
        Kept : State Felt → Result (ChainHandler Felt) × Both Felt → Type 0
        Kept s r =
            Grows (OrderRequest g fs networks getenv conn args) s r.1.1
            × HasSafe (OrderRequest g fs networks getenv conn) r.1.0
            × Ensures Safe r.0

        by_answers :
            (f : Solver Felt) (s : State Felt)
            → HasSafe (OrderRequest g fs networks getenv conn) f
            → (c : Result (EvmClient Felt))
            → ((x : EvmClient Felt) → c ≡ ok x → EvmObtained g fs networks getenv conn x)
            → (signer : Result (Unit {0}))
            → Kept s (
                new_evm_handler g fs bc u networks getenv conn lists
                  (to_uint64 chain_id)
                  c
                  signer
                  (f, s))
        by_answers f s h (ok c) from (ok signer) = (
          Grows-none _ s,
          ((evm_handler-IsSafe g fs networks getenv conn c (from c refl), h.0), h.1),
          evm_handler-IsSafe g fs networks getenv conn c (from c refl),
        )
        by_answers f s h (ok c) from (err e) = (Grows-none _ s, h, tt)
        by_answers f s h (ok c) from (panic p) = (Grows-none _ s, h, tt)
        by_answers f s h (err e) from signer = (Grows-none _ s, h, tt)
        by_answers f s h (panic p) from signer = (Grows-none _ s, h, tt)

        by_cache :
            (f : Solver Felt) (s : State Felt)
            → HasSafe (OrderRequest g fs networks getenv conn) f
            → (o : Option (ChainHandler Felt))
            → NoneOrSafe (OrderRequest g fs networks getenv conn) o
            → Kept s (or_new_evm g fs bc u networks getenv conn lists (to_uint64 chain_id) o (f, s))
        by_cache f s h (some x) safe = (Grows-none _ s, h, safe)
        by_cache f s h none safe =
            by_answers f s h (conn.get_evm_client (to_uint64 chain_id))
              (λ x e. (to_uint64 chain_id, e)) (conn.get_evm_signer (to_uint64 chain_id))

    get_starknet_handler-Keeps :
        (chain_id : ℕ)
        → KeepsFor args Safe (get_starknet_handler g fs bc u networks getenv conn lists chain_id)
    unfolding get_starknet_handler or_new_starknet new_hyperlane_starknet
    get_starknet_handler-Keeps chain_id = record {
      at = λ f s h.
          by_cache f s h (get_network_config_by_chain_id networks chain_id) f.hyperlane_starknet
            h.1;
    }
      where
        by_cache :
            (f : Solver Felt) (s : State Felt)
            → HasSafe (OrderRequest g fs networks getenv conn) f
            → (n : Result NetworkConfig) (o : Option (ChainHandler Felt))
            → NoneOrSafe (OrderRequest g fs networks getenv conn) o
            → Grows
                (OrderRequest g fs networks getenv conn args)
                s
                (or_new_starknet g fs bc u networks getenv conn lists n o (f, s)).1.1
              × HasSafe
                  (OrderRequest g fs networks getenv conn)
                  (or_new_starknet g fs bc u networks getenv conn lists n o (f, s)).1.0
              × Ensures Safe (or_new_starknet g fs bc u networks getenv conn lists n o (f, s)).0
        by_cache f s h n (some x) safe = (Grows-none _ s, h, safe)
        by_cache f s h (ok n) none safe =
            (Grows-none _ s, (h.0, with_provider-IsSafe n _), with_provider-IsSafe n _)
        by_cache f s h (err e) none safe = (Grows-none _ s, h, tt)
        by_cache f s h (panic p) none safe = (Grows-none _ s, h, tt)

    execute_chain_operation-Keeps :
        (chain_id : ℕ) (operation : ChainHandler Felt → M Felt OrderAction)
        → ((h : ChainHandler Felt)
            → Safe h
            → Emits (OrderRequest g fs networks getenv conn args) (operation h))
        → KeepsFor args Any
            (execute_chain_operation g fs bc u networks getenv conn lists chain_id operation)
    unfolding execute_chain_operation operate_on
    execute_chain_operation-Keeps chain_id operation safe =
        Keeps-if _ args _ (names_starknet_chain networks chain_id) _ _
          (on (get_starknet_handler-Keeps chain_id))
          (Keeps-if _ args _ (is_evm_chain networks chain_id) _ _
            (on (get_evm_handler-Keeps chain_id)) (Keeps-refuse _ args _ _))
      where
        on :
            {m : S Felt (ChainHandler Felt)}
            → KeepsFor args Safe m
            → KeepsFor args Any (operate_on g fs bc u networks getenv conn lists m operation)
        on k =
            Keeps-bind _ args Safe _ _ _ (Keeps-wrapped _ args _ _ _ k)
              λ h s. Keeps-wrapped _ args _ _ _ (Keeps-run _ args _ (safe h s))

    fill_loop-Keeps :
        (is : List FillInstruction)
        → KeepsFor args Any (fill_loop g fs bc u networks getenv conn lists args is)
    unfolding fill_loop
    fill_loop-Keeps [] = Keeps-return _ args _ _ tt
    fill_loop-Keeps (i ∷ is) =
        Keeps-bind _ args Any _ _ _
          (Keeps-wrapped _ args _ _ _ (execute_chain_operation-Keeps _ _ (λ h s. s.fills args)))
          (after (fill_loop-Keeps is))
      where
        after :
            {next : S Felt OrderAction}
            → KeepsFor args Any next
            → (a : OrderAction) → Unit {0}
            → KeepsFor args Any (after_fill g fs bc u networks getenv conn lists a next)
        after k settle t = unfold after_fill in Keeps-return _ args _ _ tt
        after k complete t = unfold after_fill in k
        after k error t = unfold after_fill in Keeps-refuse _ args _ _

    settle_operation-Emits :
        (h : ChainHandler Felt)
        → Safe h
        → Emits
            (OrderRequest g fs networks getenv conn args)
            (settle_operation g fs bc u networks getenv conn lists args h)
    unfolding settle_operation
    settle_operation-Emits h s = Emits-then _ _ (s.settles args) (Emits-pure _)

    settle_loop-Keeps :
        (is : List FillInstruction)
        → KeepsFor args Any (settle_loop g fs bc u networks getenv conn lists args is)
    unfolding settle_loop
    settle_loop-Keeps [] = Keeps-return _ args _ _ tt
    settle_loop-Keeps (i ∷ is) =
        Keeps-then _ args Any _ _ _
          (Keeps-wrapped _ args _ _ _ (execute_chain_operation-Keeps _ _ settle_operation-Emits))
          (settle_loop-Keeps is)

    -- The log at the head of an operation asks nothing.
    logged-Keeps :
        {A : Type 0} {m : S Felt A}
        → KeepsFor args Any m
        → KeepsFor args Any (run (lift (log_order_processing args)) >> m)
    logged-Keeps k = Keeps-then _ args Any _ _ _ (Keeps-run _ args _ (Emits-lift _)) k

    fill-Keeps : KeepsFor args Any (fill g fs bc u networks getenv conn lists args)
    unfolding fill
    fill-Keeps = logged-Keeps (from args.resolved_order.fill_instructions)
      where
        from :
            (is : List FillInstruction)
            → KeepsFor args Any (fill_from g fs bc u networks getenv conn lists args is)
        from [] = unfold fill_from in Keeps-refuse _ args _ _
        from (i ∷ is) = unfold fill_from in fill_loop-Keeps (i ∷ is)

    settle_order-Keeps : KeepsFor args Any (settle_order g fs bc u networks getenv conn lists args)
    unfolding settle_order
    settle_order-Keeps = logged-Keeps (from args.resolved_order.fill_instructions)
      where
        from :
            (is : List FillInstruction)
            → KeepsFor args Any (settle_from g fs bc u networks getenv conn lists args is)
        from [] = unfold settle_from in Keeps-refuse _ args _ _
        from (i ∷ is) = unfold settle_from in settle_loop-Keeps (i ∷ is)

    after_action-Keeps :
        (a : OrderAction)
        → KeepsFor args Any (after_action g fs bc u networks getenv conn lists args a)
    unfolding after_action
    after_action-Keeps complete = Keeps-return _ args _ _ tt
    after_action-Keeps settle =
        Keeps-then _ args Any _ _ _ (Keeps-run _ args _ (Emits-ask _ _ (reads tt))) (
          Keeps-then _ args Any _ _ _ (Keeps-wrapped _ args _ _ _ settle_order-Keeps)
            (Keeps-return _ args _ _ tt))
    after_action-Keeps error = Keeps-return _ args _ _ tt

  process_intent-Keeps :
      (args : ParsedArgs)
      → Keeps
          (OrderRequest g fs networks getenv conn)
          args
          Any
          (process_intent g fs bc u networks getenv conn lists args)
  unfolding process_intent
  process_intent-Keeps args = logged-Keeps args (
      Keeps-if _ args _ (not (is_allowed_intent lists args)) _ _ (Keeps-refuse _ args _ _) (
        Keeps-bind _ args Any _ _ _
          (Keeps-run _ args _ (
            evaluate_all-Emits _ (λ t o. reads tt) (λ t o. reads tt) g fs bc u networks getenv
              args))
          λ result t. Keeps-if _ args _ (not result.passed) _ _ (Keeps-refuse _ args _ _) (
            Keeps-bind _ args Any _ _ _ (Keeps-wrapped _ args _ _ _ (fill-Keeps args))
              λ a t'. after_action-Keeps args a)))

  -- If the handlers that the solver keeps send only what belongs to the order at hand, then,
  -- whatever the order is and whatever the chains answer, on errors and panics too, processing an
  -- order adds only requests that belong to that order: reads, the approvals of exact amounts of
  -- its own outputs, of ETH of a gas payment that a client reads from the order's settler on
  -- Starknet, its own fill and its own settlement, through clients that the connections give. The signer's value is
  -- restored, and the handlers that the solver keeps afterwards are again such handlers.
  pub process_intent-Grows :
      (args : ParsedArgs) (f : Solver Felt) (s : State Felt)
      → HasSafe (OrderRequest g fs networks getenv conn) f
      → Grows
          (OrderRequest g fs networks getenv conn args)
          s
          (process_intent g fs bc u networks getenv conn lists args (f, s)).1.1
        × HasSafe
            (OrderRequest g fs networks getenv conn)
            (process_intent g fs bc u networks getenv conn lists args (f, s)).1.0
  process_intent-Grows args f s h =
      let (grows, safe, _) = (process_intent-Keeps args).at f s h in (grows, safe)
