-- ===== src/Rules/Engine.antt =====
-- `RulesEngine`: the rules in turn, up to the first that fails.
use oif_starknet.Prelude.{List, [], ◌∷◌, ◌++◌, if◌then◌else◌}
use oif_starknet.Types.{ParsedArgs}
use oif_starknet.Types.Address.{Geth}
use oif_starknet.EnvUtil.{Env}
use oif_starknet.Config.Networks.{Networks}
use oif_starknet.Logutil.{cross_chain_operation}
use oif_starknet.StarknetUtil.{Felts}
use oif_starknet.Chain.{M, pure, lift, ◌>>=◌, ◌>>◌, uint64_of}
use oif_starknet.Rules.Clients.{BalanceClients, Uint256}
use oif_starknet.Rules.Balance.{
  RuleResult, pass, all_rules_passed, destination_chain, evaluate_balance,
}
use oif_starknet.Rules.Profit.{evaluate_profit}

-- The implementations of the interface `Rule`.
pub data Rule (Felt : Type 0) : Type 0 where
  balance_rule profitability_rule : Rule Felt
  custom_rule : (ParsedArgs → M Felt RuleResult) → Rule Felt

unfoldable pub new_rules_engine : {Felt : Type 0} → List (Rule Felt)
new_rules_engine = balance_rule ∷ profitability_rule ∷ []

unfoldable pub add_rule : {Felt : Type 0} → List (Rule Felt) → Rule Felt → List (Rule Felt)
add_rule rules rule = rules ++ (rule ∷ [])

module _ {Felt U : Type 0} (g : Geth) (fs : Felts Felt) (bc : BalanceClients Felt) (u : Uint256 U)
    (networks : Networks) (getenv : Env) where
  -- The method `Evaluate` of a rule.
  unfoldable pub evaluate : Rule Felt → ParsedArgs → M Felt RuleResult
  evaluate balance_rule args = evaluate_balance g fs bc networks getenv args
  evaluate profitability_rule args = lift (evaluate_profit u args)
  evaluate (custom_rule f) args = f args

  -- The loop over the rules. The verdict of each is logged.
  unfoldable pub evaluate_rules : List (Rule Felt) → ParsedArgs → M Felt RuleResult
  evaluate_rules [] args = pure (pass all_rules_passed)
  evaluate_rules (rule ∷ rest) args =
      let next = evaluate_rules rest args in
      do
        result ← evaluate rule args
        lift (cross_chain_operation args.order_id)
        if result.passed then next else pure result

  unfoldable pub evaluate_all : List (Rule Felt) → ParsedArgs → M Felt RuleResult
  unfolding evaluate_rules
  evaluate_all rules args = do
    origin ← uint64_of args.resolved_order.origin_chain_id
    destination ← lift (destination_chain args.resolved_order.fill_instructions)
    evaluate_rules rules args
