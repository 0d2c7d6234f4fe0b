-- ===== src/Types/AllowBlock.antt =====
-- The allow and block lists: `Matches` of solver/solvercore/types/types.go, and the checks of
-- solver/solvercore/solvers/hyperlane7683/solver.go that a solver makes before it takes an order.
pub mod Laws
use oif_starknet.Prelude.{List, [], ◌∷◌, Bool, true, false, not, ◌&&◌, if◌then◌else◌}
use oif_starknet.Prelude.Text.{GoString, str, str_eq}
use oif_starknet.Types.Order.{Recipient, ParsedArgs, AllowBlockListItem, AllowBlockLists}

abbrev pub wildcard : GoString
wildcard = str "*"

-- `*` matches any value.
unfoldable pub matches_pattern : GoString → GoString → Bool
matches_pattern pattern value = if str_eq pattern wildcard then true else str_eq pattern value

-- `Matches` of an item.
unfoldable pub matches : AllowBlockListItem → GoString → GoString → GoString → Bool
unfolding matches_pattern
matches a sender destination recipient =
    matches_pattern a.sender_address sender
    && matches_pattern a.destination_domain destination
    && matches_pattern a.recipient_address recipient

-- The loop over the recipients: each `continue` goes on with the rest.
unfoldable pub matches_recipients : AllowBlockListItem → List Recipient → Bool
matches_recipients item [] = false
matches_recipients item (r ∷ rest) =
    let next = matches_recipients item rest in
    if not (str_eq item.destination_domain wildcard)
      && not (str_eq item.destination_domain r.destination_chain_name)
    then next
    else if not (str_eq item.recipient_address wildcard)
        && not (str_eq item.recipient_address r.recipient_address)
    then next
    else true

unfoldable pub matches_allow_block_item : AllowBlockListItem → ParsedArgs → Bool
unfolding matches_recipients
matches_allow_block_item item args =
    if not (str_eq item.sender_address wildcard)
      && not (str_eq item.sender_address args.sender_address)
    then false
    else matches_recipients item args.recipients

-- `for _, item := range list { if f.matchesAllowBlockItem(item, args) { … } }`
unfoldable pub any_item_matches : List AllowBlockListItem → ParsedArgs → Bool
any_item_matches [] args = false
any_item_matches (item ∷ rest) args =
    if matches_allow_block_item item args then true else any_item_matches rest args

-- What the length test after the block list decides.
unfoldable pub allowed_by : List AllowBlockListItem → ParsedArgs → Bool
unfolding any_item_matches
allowed_by [] args = true
allowed_by (item ∷ rest) args = any_item_matches (item ∷ rest) args

unfoldable pub is_allowed_intent : AllowBlockLists → ParsedArgs → Bool
unfolding any_item_matches allowed_by
is_allowed_intent lists args =
    if any_item_matches lists.block_list args then false else allowed_by lists.allow_list args
