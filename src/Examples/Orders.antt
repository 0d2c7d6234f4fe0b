-- ===== src/Examples/Orders.antt =====
-- The lists, the profit rule, the networks and the listeners.
use oif_starknet.Prelude.{ℕ, ◌%◌, ◌^◌, ◌≡◌, ◌↔◌, inl, inr, refl, true, [], ◌∷◌, some, ltb, arith}
use oif_starknet.Prelude.Int.{negsuc}
use oif_starknet.Prelude.Result.{Result, ok}
use oif_starknet.Prelude.Text.{str}
use oif_starknet.Types.AllowBlock.{is_allowed_intent}
use oif_starknet.Types.AllowBlock.Laws.{CoveredBy, LetThrough, is_allowed_intent_iff}
use oif_starknet.Config.Networks.{Networks, by_chain_id, by_domain, env_networks}
use oif_starknet.Config.Networks.Lookup.{
  In, SameEntries, all_distinct, chain_ids, domains, by_chain_id-SameEntries,
}
use oif_starknet.Rules.Balance.{RuleResult}
use oif_starknet.Rules.Profit.{sum_amounts, evaluate_profit, evaluate_profit_iff}
use oif_starknet.Listener.Base.{
  ListenerConfig, Events, safe_block, new_listener_config, process_current_block_range,
}
use oif_starknet.Listener.Chunks.{Updates, process_current_block_range_lem}
use oif_starknet.Examples.Data.{
  geth, uint256, uint256_laws, output, instruction, order, sender_item, lists, ethereum, starknet,
  networks,
}

is_allowed_intent_example :
    (is_allowed_intent lists order ≡ true)
    ↔ ((¬ CoveredBy [] order) × LetThrough (sender_item ∷ []) order)
is_allowed_intent_example = is_allowed_intent_iff lists order

evaluate_profit_example :
    (r : RuleResult) × (evaluate_profit uint256 order ≡ ok r)
    × (r.passed
        ≡ ltb (sum_amounts (output 1 ∷ []) % 2 ^ 256) (sum_amounts (output 2 ∷ []) % 2 ^ 256))
evaluate_profit_example =
    evaluate_profit_iff uint256 uint256_laws order 2 instruction [] (λ e. cc) (λ e. cc) refl refl
      (omega arith)

abbrev turned : Networks
turned = starknet ∷ ethereum ∷ []

same_entries : SameEntries networks turned
same_entries e = (turn, back)
  where
    turn : In e networks → In e turned
    turn (inl p) = inr (inl p)
    turn (inr (inl p)) = inl p
    turn (inr (inr x)) = absurd x

    back : In e turned → In e networks
    back (inl p) = inr (inl p)
    back (inr (inl p)) = inl p
    back (inr (inr x)) = absurd x

distinct_ids : all_distinct (chain_ids networks) ≡ true
unfolding all_distinct
distinct_ids = refl

distinct_domains : all_distinct (domains networks) ≡ true
unfolding all_distinct
distinct_domains = refl

by_chain_id_example :
    ((by_chain_id 2 turned ≡ some starknet) ↔ (In starknet networks × (starknet.1.chain_id ≡ 2)))
    × ((by_domain 2 turned ≡ some starknet)
        ↔ (In starknet networks × (starknet.1.hyperlane_domain ≡ 2)))
by_chain_id_example =
    by_chain_id-SameEntries networks turned same_entries distinct_ids distinct_domains 2 starknet

-- The networks of an empty environment.
default_networks :
    (all_distinct (chain_ids (env_networks geth (λ k. []))) ≡ true)
    × (all_distinct (domains (env_networks geth (λ k. []))) ≡ true)
unfolding all_distinct env_networks oif_starknet.EnvUtil.get_env_uint64_any
    oif_starknet.EnvUtil.get_env_uint64
default_networks = (refl, refl)

abbrev config : ListenerConfig
config = new_listener_config [] (str "Ethereum") (negsuc 0) (negsuc 0) 5 10

abbrev read_all : Events → ℕ → ℕ → Result ℕ
read_all h a b = ok b

process_current_block_range_example :
    Updates read_all
      (λ h a b. inl refl)
      10
      25
      (omega arith)
      (omega arith)
      3
      []
      (process_current_block_range read_all 31 config (ok 30) 3 [])
unfolding new_listener_config safe_block
process_current_block_range_example =
    process_current_block_range_lem read_all (λ h a b. inl refl) 10 25 (omega arith) (omega arith)
      30 30 3 config [] refl refl (omega arith) (omega arith)
