-- ===== src/Types/AllowBlock/Laws.antt =====
-- What the allow and block lists decide.
use oif_starknet.Prelude.{◌≡◌, refl, List, [], ◌∷◌, true, ◌⊎◌, ◌↔◌, arith, Bool-cases, inl, inr}
use oif_starknet.Prelude.Text.{GoString, str_eq_iff}
use oif_starknet.Types.Order.{Recipient, ParsedArgs, AllowBlockListItem, AllowBlockLists}
use oif_starknet.Types.AllowBlock.{
  wildcard, matches_pattern, matches, matches_recipients, matches_allow_block_item,
  any_item_matches, allowed_by, is_allowed_intent,
}

-- A field of an item accepts a value.
abbrev pub Accepts : GoString → GoString → Type 0
Accepts pattern value = (pattern ≡ wildcard) ⊎ (pattern ≡ value)

-- An item covers an order: its sender, and one recipient with both fields at once.
abbrev pub CoversOne : AllowBlockListItem → List Recipient → Type 0
CoversOne item [] = ⊥
CoversOne item (r ∷ rest) =
    (Accepts item.destination_domain r.destination_chain_name
      × Accepts item.recipient_address r.recipient_address)
    ⊎ CoversOne item rest

abbrev pub Covers : AllowBlockListItem → ParsedArgs → Type 0
Covers item args = Accepts item.sender_address args.sender_address × CoversOne item args.recipients

abbrev pub CoveredBy : List AllowBlockListItem → ParsedArgs → Type 0
CoveredBy [] args = ⊥
CoveredBy (item ∷ rest) args = Covers item args ⊎ CoveredBy rest args

pub matches_recipients_sound :
    (item : AllowBlockListItem) (rs : List Recipient)
    → matches_recipients item rs ≡ true
    → CoversOne item rs
unfolding matches_recipients
matches_recipients_sound item [] h = ground arith
matches_recipients_sound item (r ∷ rest) h = ground (
  arith,
  str_eq_iff item.destination_domain wildcard,
  str_eq_iff item.destination_domain r.destination_chain_name,
  str_eq_iff item.recipient_address wildcard,
  str_eq_iff item.recipient_address r.recipient_address,
  matches_recipients_sound item rest,
)

pub matches_recipients_complete :
    (item : AllowBlockListItem) (rs : List Recipient)
    → CoversOne item rs
    → matches_recipients item rs ≡ true
unfolding matches_recipients
matches_recipients_complete item [] h = absurd h
matches_recipients_complete item (r ∷ rest) h = ground (
  arith,
  str_eq_iff item.destination_domain wildcard,
  str_eq_iff item.destination_domain r.destination_chain_name,
  str_eq_iff item.recipient_address wildcard,
  str_eq_iff item.recipient_address r.recipient_address,
  matches_recipients_complete item rest,
)

pub matches_allow_block_item_iff :
    (item : AllowBlockListItem) (args : ParsedArgs)
    → (matches_allow_block_item item args ≡ true) ↔ Covers item args
unfolding matches_allow_block_item
matches_allow_block_item_iff item args = (
  λ h. ground (
    arith,
    str_eq_iff item.sender_address wildcard,
    str_eq_iff item.sender_address args.sender_address,
    matches_recipients_sound item args.recipients,
  ),
  λ h. ground (
    arith,
    str_eq_iff item.sender_address wildcard,
    str_eq_iff item.sender_address args.sender_address,
    matches_recipients_complete item args.recipients,
  ),
)

pub any_item_matches_sound :
    (items : List AllowBlockListItem) (args : ParsedArgs)
    → any_item_matches items args ≡ true
    → CoveredBy items args
unfolding any_item_matches
any_item_matches_sound [] args h = ground arith
any_item_matches_sound (item ∷ rest) args h =
    ground (arith, matches_allow_block_item_iff item args, any_item_matches_sound rest args)

pub any_item_matches_complete :
    (items : List AllowBlockListItem) (args : ParsedArgs)
    → CoveredBy items args
    → any_item_matches items args ≡ true
unfolding any_item_matches
any_item_matches_complete [] args h = absurd h
any_item_matches_complete (item ∷ rest) args h =
    ground (arith, matches_allow_block_item_iff item args, any_item_matches_complete rest args)

-- The allow list lets an order through: it is empty, or one of its items covers the order.
abbrev pub LetThrough : List AllowBlockListItem → ParsedArgs → Type 0
LetThrough [] args = Unit
LetThrough (item ∷ rest) args = CoveredBy (item ∷ rest) args

allowed_by_iff :
    (items : List AllowBlockListItem) (args : ParsedArgs)
    → (allowed_by items args ≡ true) ↔ LetThrough items args
unfolding allowed_by
allowed_by_iff [] args = (λ h. tt, λ h. refl)
allowed_by_iff (item ∷ rest) args =
    (any_item_matches_sound (item ∷ rest) args, any_item_matches_complete (item ∷ rest) args)

-- An order is taken exactly when no item of the block list covers it, and the allow list is empty
-- or has an item that covers it. An item covers an order when its sender pattern accepts the
-- sender, and its domain and address patterns accept both fields of one same recipient.
pub is_allowed_intent_iff :
    (lists : AllowBlockLists) (args : ParsedArgs)
    → (is_allowed_intent lists args ≡ true)
      ↔ ((¬ CoveredBy lists.block_list args) × LetThrough lists.allow_list args)
unfolding is_allowed_intent
is_allowed_intent_iff lists args = (
  λ h. (
    λ c. ground (arith, any_item_matches_complete lists.block_list args c),
    ground (arith, allowed_by_iff lists.allow_list args),
  ),
  λ h. elim (Bool-cases (any_item_matches lists.block_list args)) [
    | inl e ↦ absurd (h.0 (any_item_matches_sound lists.block_list args e))
    | inr e ↦ rw e ((allowed_by_iff lists.allow_list args).1 h.1)
  ],
)

-- On an order with one recipient the solver's check and the item's own `Matches` agree.
pub matches_allow_block_item-eq-matches :
    (item : AllowBlockListItem) (args : ParsedArgs) (r : Recipient)
    → args.recipients ≡ r ∷ []
    → matches_allow_block_item item args
      ≡ matches item args.sender_address r.destination_chain_name r.recipient_address
unfolding matches_allow_block_item matches_recipients matches matches_pattern
matches_allow_block_item-eq-matches item args r one = rw (one, matches_recipients) (ground arith)
