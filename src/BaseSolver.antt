-- ===== src/BaseSolver.antt =====
-- solver/solvercore/base/solver.go: the base implementation of a solver. `Fill` and `SettleOrder` are
-- its placeholders, which a concrete solver overrides. What a rule reads besides its arguments is
-- part of the rule.
pub mod Rulings
use oif_starknet.Prelude.{
  List, [], ◌∷◌, ◌++◌, Bool, true, false, not, ◌&&◌, if◌then◌else◌, Option, none, some,
}
use oif_starknet.Prelude.Result.{Result, ok, err, panic, Error, errorf, ◌>>=◌}
use oif_starknet.Prelude.Text.{GoString, str_eq}
use oif_starknet.Types.{Recipient, ParsedArgs, IntentData, AllowBlockListItem, AllowBlockLists}
use oif_starknet.Types.AllowBlock.{wildcard}

-- `SolverContext` has the solver's metadata; its other two fields are nil here.
abbrev pub Rule : Type 0 → Type 0
Rule Metadata = ParsedArgs → Metadata → Result (Unit {0})

pub record SolverImpl (Metadata : Type 0) : Type 0 where
  pub rules : List (Rule Metadata)
  pub allow_block_lists : AllowBlockLists
  pub metadata : Metadata

-- `types.Result[types.IntentData]`: `NewSuccessResult` or `NewErrorResult`.
pub data Intent : Type 0 where
  success_result : IntentData → Intent
  error_result : Error → Intent

-- The loop over the recipients.
unfoldable pub recipients_match : AllowBlockListItem → List Recipient → Bool
recipients_match item [] = false
recipients_match item (recipient ∷ rest) =
    let next = recipients_match item rest in
    if not (str_eq item.destination_domain wildcard)
      && not (str_eq item.destination_domain recipient.destination_chain_name)
    then next
    else if not (str_eq item.recipient_address wildcard)
        && not (str_eq item.recipient_address recipient.recipient_address)
    then next
    else true

unfoldable pub matches_allow_block_item : AllowBlockListItem → ParsedArgs → Bool
unfolding recipients_match
matches_allow_block_item item args =
    if not (str_eq item.sender_address wildcard)
      && not (str_eq item.sender_address args.sender_address)
    then false
    else recipients_match item args.recipients

-- A loop over a list that ends at the first item that matches.
unfoldable pub item_matches : List AllowBlockListItem → ParsedArgs → Bool
item_matches [] args = false
item_matches (item ∷ rest) args =
    if matches_allow_block_item item args then true else item_matches rest args

-- `if len(f.allowBlockLists.AllowList) == 0 { … }` and the loop behind it.
unfoldable pub allowed_by_list : List AllowBlockListItem → ParsedArgs → Bool
unfolding item_matches
allowed_by_list [] args = true
allowed_by_list (item ∷ rest) args = item_matches (item ∷ rest) args

module _ {Metadata : Type 0} where
  unfoldable pub new_solver : AllowBlockLists → Metadata → SolverImpl Metadata
  new_solver lists metadata = record { rules = []; allow_block_lists = lists; metadata = metadata }

  unfoldable pub add_rule : SolverImpl Metadata → Rule Metadata → SolverImpl Metadata
  add_rule f rule = record f { rules = f.rules ++ (rule ∷ []) }

  unfoldable pub is_allowed_intent : SolverImpl Metadata → ParsedArgs → Bool
  unfolding item_matches allowed_by_list
  is_allowed_intent f args =
      if item_matches f.allow_block_lists.block_list args
      then false
      else allowed_by_list f.allow_block_lists.allow_list args

  -- The loop over the rules, and the intent data behind it.
  unfoldable pub evaluate_rules : List (Rule Metadata) → ParsedArgs → Metadata → Result Intent
  evaluate_rules [] args metadata = ok (
      success_result (record {
        fill_instructions = args.resolved_order.fill_instructions;
        max_spent = args.resolved_order.max_spent;
      }))
  evaluate_rules (rule ∷ rest) args metadata = elim (rule args metadata) [
    | ok u ↦ evaluate_rules rest args metadata
    | err e ↦ ok (error_result e)
    | panic p ↦ panic p
  ]

  unfoldable pub prepare_intent : SolverImpl Metadata → ParsedArgs → Result Intent
  unfolding is_allowed_intent evaluate_rules
  prepare_intent f args =
      if not (is_allowed_intent f args)
      then ok (error_result (errorf "intent blocked by allow/block lists"))
      else evaluate_rules f.rules args f.metadata

  unfoldable pub fill : SolverImpl Metadata → ParsedArgs → IntentData → Result (Unit {0})
  fill f args data_of_intent = ok tt

  unfoldable pub settle_order : SolverImpl Metadata → ParsedArgs → IntentData → Result (Unit {0})
  settle_order f args data_of_intent = ok tt

  unfoldable pub after_prepare : SolverImpl Metadata → ParsedArgs → Intent → Result Bool
  unfolding fill settle_order
  after_prepare f args (error_result e) = ok false
  after_prepare f args (success_result intent) = do
    filled ← fill f args intent
    settled ← settle_order f args intent
    ok true

  unfoldable pub process_intent : SolverImpl Metadata → ParsedArgs → Result Bool
  unfolding prepare_intent after_prepare
  process_intent f args = do intent ← prepare_intent f args; after_prepare f args intent
