-- ===== src/Handler.antt =====
-- solver/solvercore/solvers/hyperlane7683/chain_handler.go: what a chain's handler offers; and
-- what the handlers of hyperlane_evm.go and hyperlane_starknet.go have in common.
pub mod Wait
use Prim.Native.String.{String}
use oif_starknet.Prelude.{
  ℕ, zero, suc, ◌*◌, List, [], ◌∷◌, Option, none, some, Bool, true, false, if◌then◌else◌,
}
use oif_starknet.Prelude.Result.{Result, ok, err, panic, errorf}
use oif_starknet.Prelude.Text.{GoString, str, str_eq}
use oif_starknet.Prelude.BigInt.{to_uint64, to_uint32}
use oif_starknet.Types.{ParsedArgs}
use oif_starknet.Config.Networks.{NetworkConfig, Networks, by_chain_id}
use oif_starknet.Chain.{
  Request, History, State, M, pure, fail, lift, ask, attempt, wrapping, ◌>>=◌, ◌>>◌, pause,
}

pub data OrderAction : Type 0 where
  settle complete error : OrderAction

pub record ChainHandler (Felt : Type 0) : Type 0 where
  pub fill_order : ParsedArgs → M Felt OrderAction
  pub settle_order : ParsedArgs → M Felt (Unit {0})
  pub get_order_status : ParsedArgs → M Felt GoString

abbrev pub order_status_filled : GoString
order_status_filled = str "FILLED"

abbrev pub order_status_settled : GoString
order_status_settled = str "SETTLED"

abbrev pub order_status_unknown : GoString
order_status_unknown = str "UNKNOWN"

abbrev pub max_retry_attempts : ℕ
max_retry_attempts = 5

-- `2*time.Second`, in milliseconds.
abbrev pub initial_delay : ℕ
initial_delay = 2000

-- `getOriginDomain`, which both handlers have.
unfoldable pub domain_of_entry : Option (GoString × NetworkConfig) → Result ℕ
domain_of_entry none = err (errorf "no domain found for chain ID in config (check your .env file)")
domain_of_entry (some (k, n)) = ok (to_uint32 n.hyperlane_domain)

unfoldable pub origin_domain_of : Networks → Option ℕ → Result ℕ
unfolding domain_of_entry
origin_domain_of networks none = err (errorf "no origin chain ID in resolved order")
origin_domain_of networks (some x) = domain_of_entry (by_chain_id (to_uint64 x) networks)

unfoldable pub get_origin_domain : Networks → ParsedArgs → Result ℕ
unfolding origin_domain_of
get_origin_domain networks args = origin_domain_of networks args.resolved_order.origin_chain_id

module _ {Felt : Type 0} (cancelled : History Felt → Result (Unit {0})) where
  -- `select { case <-ctx.Done(): return "", ctx.Err(); case <-time.After(delay): }`
  unfoldable pub sleep_or_cancel : ℕ → M Felt (Unit {0})
  sleep_or_cancel delay = ask (pause delay) cancelled

  -- What a status check of an attempt says, if it is the expected status.
  unfoldable pub reached : GoString → Result GoString → Bool
  reached expected (ok status) = str_eq status expected
  reached expected (err e) = false
  reached expected (panic p) = false

  module _ (status_check : M Felt GoString) (expected : GoString) where
    -- The loop over the attempts that are left; `none` when they are used up. There is no pause
    -- behind the last one, and each pause is twice as long as the one before.
    unfoldable pub retry_loop : ℕ → ℕ → M Felt (Option GoString)
    unfolding reached sleep_or_cancel
    retry_loop zero delay = pure none
    retry_loop (suc zero) delay = do
      r ← attempt status_check
      if reached expected r then pure (some expected) else pure none
    retry_loop (suc (suc left)) delay =
        let rest = (do sleep_or_cancel delay; retry_loop (suc left) (delay * 2)) in
        do r ← attempt status_check; if reached expected r then pure (some expected) else rest

    unfoldable pub or_final_check : Option GoString → M Felt GoString
    or_final_check (some status) = pure status
    or_final_check none = wrapping "final status check failed" status_check

    unfoldable pub wait_for_order_status : ℕ → ℕ → M Felt GoString
    unfolding retry_loop or_final_check
    wait_for_order_status max_retries delay = do r ← retry_loop max_retries delay; or_final_check r
