-- ===== src/Rules/Profit.antt =====
-- `ProfitabilityRule`: the order brings more than it costs.
use oif_starknet.Prelude.{
  ℕ, ◌+◌, ◌%◌, ◌^◌, ◌≡◌, ◌≢◌, ◌<◌, ◌≤◌, length, refl, ◌∙◌, List, [], ◌∷◌, Option, none, some, arith,
  ltb, if◌then◌else◌,
}
use oif_starknet.Prelude.Result.{Result, ok, panic, nil_dereference, ◌>>=◌}
use oif_starknet.Logutil.{cross_chain_operation, cross_chain_operation_ok}
use oif_starknet.Types.{ParsedArgs, Output, FillInstruction}
use oif_starknet.Rules.Clients.{Uint256, Uint256Laws}
use oif_starknet.Rules.Balance.{
  RuleResult, pass, reject, missing_data, not_profitable, below_threshold, profitable,
  destination_chain,
}

-- `OriginChainID.Uint64()` and `FillInstructions[0]`, read for the log.
unfoldable pub chains_for_log : Option ℕ → List FillInstruction → Result ℕ
chains_for_log none is = panic nil_dereference
chains_for_log (some x) is = destination_chain is

module _ {U : Type 0} (u : Uint256 U) where
  abbrev pub expected_fees : U
  expected_fees = u.new_int 0

  abbrev pub min_profit_threshold : U
  min_profit_threshold = u.new_int 0

  -- `total.Add(total, amount)` over the outputs.
  unfoldable pub total_amount : U → List Output → U
  total_amount total [] = total
  total_amount total (o ∷ rest) = total_amount (u.add total (u.from_big o.amount)) rest

  -- The comparisons, given the two totals.
  unfoldable pub judge_profit : U → U → RuleResult
  judge_profit total_max_spent total_min_received =
      let total_costs = u.add total_max_spent expected_fees in
      if u.cmp_le total_min_received total_costs
      then reject not_profitable
      else if u.cmp_lt (u.sub total_min_received total_costs) min_profit_threshold
      then reject below_threshold
      else pass profitable

  unfoldable pub profit_of : ParsedArgs → List Output → List Output → Result RuleResult
  unfolding total_amount judge_profit chains_for_log
  profit_of args [] received = ok (reject missing_data)
  profit_of args (o ∷ spent) [] = ok (reject missing_data)
  profit_of args (o ∷ spent) (r ∷ received) = do
    chain ← chains_for_log args.resolved_order.origin_chain_id args.resolved_order.fill_instructions
    logged ← cross_chain_operation args.order_id
    ok (
        judge_profit (total_amount (u.new_int 0) (o ∷ spent))
          (total_amount (u.new_int 0) (r ∷ received)))

  unfoldable pub evaluate_profit : ParsedArgs → Result RuleResult
  unfolding profit_of
  evaluate_profit args =
      profit_of args args.resolved_order.max_spent args.resolved_order.min_received

-- The sum of the amounts of some outputs.
unfoldable pub sum_amounts : List Output → ℕ
sum_amounts [] = 0
sum_amounts (o ∷ rest) = o.amount + sum_amounts rest

module _ {U : Type 0} (u : Uint256 U) (laws : Uint256Laws u) where
  total_amount_value :
      (t : U) (os : List Output)
      → u.to_big t < 2 ^ 256
      → u.to_big (total_amount u t os) ≡ (u.to_big t + sum_amounts os) % 2 ^ 256
  unfolding total_amount sum_amounts
  total_amount_value t [] h = omega arith
  total_amount_value t (o ∷ rest) h =
      let step = laws.add_value t (u.from_big o.amount) in
      let amount = laws.from_big_value o.amount in
      omega (
        arith,
        step,
        amount,
        total_amount_value (u.add t (u.from_big o.amount)) rest (omega (arith, step)),
      )

  total_lem :
      (os : List Output) → u.to_big (total_amount u (u.new_int 0) os) ≡ sum_amounts os % 2 ^ 256
  total_lem os =
      let zero_value : u.to_big (u.new_int 0) ≡ 0 = laws.new_int_value 0 in
      omega (arith, zero_value, total_amount_value (u.new_int 0) os (omega (arith, zero_value)))

  judge_lem :
      (spent received : U)
      → u.to_big spent < 2 ^ 256
      → (judge_profit u spent received).passed ≡ ltb (u.to_big spent) (u.to_big received)
  unfolding judge_profit
  judge_lem spent received h =
      let zero_value : u.to_big (u.new_int 0) ≡ 0 = laws.new_int_value 0 in
      let costs = laws.add_value spent (u.new_int 0) in
      rw
        (
          laws.cmp_le_value received (u.add spent (u.new_int 0)),
          laws.cmp_lt_value (u.sub received (u.add spent (u.new_int 0))) (u.new_int 0),
          costs,
          zero_value,
        )
        (ground arith)

  -- An order with outputs in both lists, with an origin chain, a fill instruction and an identifier
  -- of eight bytes at least, is judged by the profit rule without a panic, and passes exactly when
  -- the sum of what it brings exceeds the sum of what it costs, both sums taken modulo 2^256.
  pub evaluate_profit_iff :
      (args : ParsedArgs) (x : ℕ) (i : FillInstruction) (more : List FillInstruction)
      → args.resolved_order.max_spent ≢ []
      → args.resolved_order.min_received ≢ []
      → args.resolved_order.origin_chain_id ≡ some x
      → args.resolved_order.fill_instructions ≡ i ∷ more
      → 8 ≤ length args.order_id
      → (r : RuleResult) × (evaluate_profit u args ≡ ok r)
        × (r.passed
            ≡ ltb
                (sum_amounts args.resolved_order.max_spent % 2 ^ 256)
                (sum_amounts args.resolved_order.min_received % 2 ^ 256))
  unfolding evaluate_profit destination_chain
  evaluate_profit_iff args x i more hs hr origin instructions long =
      by_lists args.resolved_order.max_spent args.resolved_order.min_received hs hr
    where
      by_lists :
          (s r : List Output)
          → s ≢ []
          → r ≢ []
          → (res : RuleResult) × (profit_of u args s r ≡ ok res)
            × (res.passed ≡ ltb (sum_amounts s % 2 ^ 256) (sum_amounts r % 2 ^ 256))
      by_lists [] r p q = absurd (p refl)
      by_lists (o ∷ s) [] p q = absurd (q refl)
      by_lists (o ∷ s) (o' ∷ r) p q =
          let spent = total_amount u (u.new_int 0) (o ∷ s) in
          let received = total_amount u (u.new_int 0) (o' ∷ r) in
          let sv = total_lem (o ∷ s) in
          let rv = total_lem (o' ∷ r) in
          (
            judge_profit u spent received,
            rw (origin, instructions, cross_chain_operation_ok args.order_id long, profit_of),
            judge_lem spent received (omega (arith, sv)) ∙ rw (sv, rv),
          )
