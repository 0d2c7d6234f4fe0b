-- ===== src/Handler/Wait.antt =====
-- The loop that waits for a status: what it returns, and that it ends.
use oif_starknet.Prelude.{ℕ, zero, suc, ◌*◌, Option, none, some}
use oif_starknet.Prelude.Result.{Result}
use oif_starknet.Prelude.Text.{GoString}
use oif_starknet.Chain.{Request, History, M, pause}
use oif_starknet.Chain.Emits.{
  Emits, emits_rules, Emits-bind, Emits-attempt, Emits-if, Emits-pure, Emits-then, Emits-ask,
}
use oif_starknet.Handler.{
  reached, sleep_or_cancel, retry_loop, or_final_check, wait_for_order_status,
}

module _ {Felt : Type 0} (P : Request Felt → Type 0) (cancelled : History Felt → Result (Unit {0}))
    (status_check : M Felt GoString) (expected : GoString) (checks : Emits P status_check)
    (pauses : (n : ℕ) → P (pause n)) where
  retry_loop-Emits : (n delay : ℕ) → Emits P (retry_loop cancelled status_check expected n delay)
  unfolding retry_loop sleep_or_cancel
  retry_loop-Emits zero delay = search emits_rules
  retry_loop-Emits (suc zero) delay = search emits_rules
  retry_loop-Emits (suc (suc n)) delay = Emits-bind _ _ (Emits-attempt _ checks) λ r.
      Emits-if (reached cancelled expected r) _ _ (λ _. Emits-pure (some expected))
        λ _.
          Emits-then _ _ (Emits-ask (pause delay) _ (pauses delay))
            (retry_loop-Emits (suc n) (delay * 2))

  or_final_check-Emits :
      (o : Option GoString) → Emits P (or_final_check cancelled status_check expected o)
  unfolding or_final_check
  or_final_check-Emits none = search emits_rules
  or_final_check-Emits (some status) = search emits_rules

  -- Waiting makes the requests of the status check, and pauses.
  pub wait_for_order_status-Emits :
      (n delay : ℕ) → Emits P (wait_for_order_status cancelled status_check expected n delay)
  unfolding wait_for_order_status
  wait_for_order_status-Emits n delay =
      search (emits_rules, retry_loop-Emits, or_final_check-Emits) depth 6
