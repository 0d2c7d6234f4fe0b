-- ===== src/Rules/Reads.antt =====
-- The rules of the engine only read balances.
use oif_starknet.Prelude.{List, [], ◌∷◌, Option, none, some}
use oif_starknet.Prelude.Result.{Result, ok, err, panic}
use oif_starknet.Prelude.Text.{GoString, str_eq}
use oif_starknet.Types.{ParsedArgs, Output}
use oif_starknet.Types.Address.{Address, Geth, to_evm_address}
use oif_starknet.EnvUtil.{
  Env, get_starknet_solver_address, get_starknet_rpc_url, get_solver_public_key,
}
use oif_starknet.Config.Networks.{NetworkConfig, Networks}
use oif_starknet.StarknetUtil.{Felts}
use oif_starknet.Chain.{Request, evm_balance, starknet_balance, M, pure}
use oif_starknet.Chain.Emits.{Emits, emits_rules, Emits-bind, Emits-if, Emits-pure, Emits-lift}
use oif_starknet.Rules.Clients.{BalanceClients, Uint256}
use oif_starknet.Rules.Balance.{
  RuleResult, balance_of_answer, starknet_erc20_balance, evm_erc20_balance, check_starknet_output,
  check_evm_token, check_evm_output, check_outputs, if_connected, check_starknet_balance,
  check_evm_balance_at, check_evm_balance, evaluate_balance_of, evaluate_balance,
}
use oif_starknet.Rules.Engine.{new_rules_engine, evaluate, evaluate_rules, evaluate_all}

module _ {Felt U : Type 0} (P : Request Felt → Type 0)
    (reads_evm : (t o : Address) → P (evm_balance t o))
    (reads_starknet : (t o : GoString) → P (starknet_balance t o)) (g : Geth) (fs : Felts Felt)
    (bc : BalanceClients Felt) (u : Uint256 U) (networks : Networks) (getenv : Env) where
  balance_of_answer-Emits :
      (answer : List Felt) → Emits P (balance_of_answer g fs bc networks getenv answer)
  unfolding balance_of_answer
  balance_of_answer-Emits [] = search emits_rules
  balance_of_answer-Emits (low ∷ more) = search emits_rules

  starknet_erc20_balance-Emits :
      (token owner : GoString)
      → Emits P (starknet_erc20_balance g fs bc networks getenv token owner)
  unfolding starknet_erc20_balance
  starknet_erc20_balance-Emits token owner =
      search (emits_rules, balance_of_answer-Emits, reads_starknet) depth 12

  evm_erc20_balance-Emits :
      (token owner : Address) → Emits P (evm_erc20_balance g fs bc networks getenv token owner)
  unfolding evm_erc20_balance
  evm_erc20_balance-Emits token owner = search (emits_rules, reads_evm) depth 16

  check_starknet_output-Emits :
      (solver : GoString) (o : Output)
      → Emits P (check_starknet_output g fs bc networks getenv solver o)
  unfolding check_starknet_output
  check_starknet_output-Emits solver o = search (emits_rules, starknet_erc20_balance-Emits) depth 12

  check_evm_output-Emits :
      (solver : Address) (o : Output) → Emits P (check_evm_output g fs bc networks getenv solver o)
  unfolding check_evm_output
  check_evm_output-Emits solver o =
      Emits-if (str_eq o.token []) _ _ (λ _. Emits-pure none)
        (λ _. by_token (to_evm_address g o.token))
    where
      by_token : (r : Result Address) → Emits P (check_evm_token g fs bc networks getenv solver o r)
      by_token (ok token) = unfold check_evm_token in search (emits_rules, evm_erc20_balance-Emits)
      by_token (err e) = unfold check_evm_token in search emits_rules
      by_token (panic p) = unfold check_evm_token in search emits_rules

  check_outputs-Emits :
      (check : Output → M Felt (Option RuleResult)) (passed : RuleResult) (os : List Output)
      → ((o : Output) → Emits P (check o))
      → Emits P (check_outputs g fs bc networks getenv check passed os)
  unfolding check_outputs
  check_outputs-Emits check passed [] e = Emits-pure passed
  check_outputs-Emits check passed (o ∷ os) e =
      Emits-bind _ _ (e o) (go (check_outputs-Emits check passed os e))
    where
      go :
          Emits P (check_outputs g fs bc networks getenv check passed os)
          → (r : Option RuleResult)
          → Emits P (elim r [
            | none ↦ check_outputs g fs bc networks getenv check passed os
            | some r ↦ pure r
          ])
      go rest none = rest
      go rest (some r) = Emits-pure r

  if_connected-Emits :
      (r : Result (Unit {0})) (m : M Felt RuleResult)
      → Emits P m
      → Emits P (if_connected g fs bc networks getenv r m)
  unfolding if_connected
  if_connected-Emits (ok c) m e = e
  if_connected-Emits (err x) m e = Emits-pure _
  if_connected-Emits (panic p) m e = Emits-lift _

  check_starknet_balance-Emits :
      (args : ParsedArgs) → Emits P (check_starknet_balance g fs bc networks getenv args)
  unfolding check_starknet_balance
  check_starknet_balance-Emits args =
      Emits-if (str_eq (get_starknet_solver_address getenv) []) _ _ (λ _. Emits-pure _)
        λ _.
          Emits-if (str_eq (get_starknet_rpc_url getenv) []) _ _ (λ _. Emits-pure _)
            λ _.
              if_connected-Emits (bc.new_provider (get_starknet_rpc_url getenv)) _
                (check_outputs-Emits _ _ _ (check_starknet_output-Emits _))

  check_evm_balance_at-Emits :
      (solver : Address) (args : ParsedArgs) (n : Option (GoString × NetworkConfig))
      → Emits P (check_evm_balance_at g fs bc networks getenv solver args n)
  unfolding check_evm_balance_at
  check_evm_balance_at-Emits solver args none = Emits-pure _
  check_evm_balance_at-Emits solver args (some (k, n)) =
      if_connected-Emits (bc.dial n.rpc_url) _
        (check_outputs-Emits _ _ _ (check_evm_output-Emits solver))

  check_evm_balance-Emits :
      (args : ParsedArgs) → Emits P (check_evm_balance g fs bc networks getenv args)
  unfolding check_evm_balance
  check_evm_balance-Emits args =
      Emits-if (str_eq (get_solver_public_key getenv) []) _ _ (λ _. Emits-pure _)
        λ _. Emits-bind _ _ (Emits-lift _) λ chain. check_evm_balance_at-Emits _ args _

  evaluate_balance-Emits :
      (args : ParsedArgs) → Emits P (evaluate_balance g fs bc networks getenv args)
  unfolding evaluate_balance
  evaluate_balance-Emits args = by_outputs args.resolved_order.max_spent
    where
      by_outputs :
          (os : List Output) → Emits P (evaluate_balance_of g fs bc networks getenv args os)
      by_outputs [] = unfold evaluate_balance_of in search emits_rules
      by_outputs (o ∷ os) =
          unfold evaluate_balance_of in
          search (emits_rules, check_starknet_balance-Emits, check_evm_balance-Emits) depth 8

  -- What the engine's own rules ask of the chains is balances.
  pub evaluate_all-Emits :
      (args : ParsedArgs) → Emits P (evaluate_all g fs bc u networks getenv new_rules_engine args)
  unfolding evaluate_all evaluate_rules new_rules_engine evaluate
  evaluate_all-Emits args = search (emits_rules, evaluate_balance-Emits) depth 16
