-- ===== src/Types/Order.antt =====
-- solver/solvercore/types/types.go: the order as the listeners parse it. A `*big.Int` that the
-- producers always set is a number; `OriginChainID`, which the code tests for nil, is an `Option`.
use oif_starknet.Prelude.{ℕ, List, Option}
use oif_starknet.Prelude.Text.{Bytes, GoString}

pub record Recipient : Type 0 where
  pub destination_chain_name : GoString
  pub recipient_address : GoString

pub record Output : Type 0 where
  pub token : GoString
  pub amount : ℕ
  pub recipient : GoString
  pub chain_id : ℕ

pub record FillInstruction : Type 0 where
  pub destination_chain_id : ℕ
  pub destination_settler : GoString
  pub origin_data : Bytes

pub record ResolvedCrossChainOrder : Type 0 where
  pub user : GoString
  pub origin_chain_id : Option ℕ
  pub open_deadline : ℕ
  pub fill_deadline : ℕ
  pub order_id : Bytes
  pub max_spent : List Output
  pub min_received : List Output
  pub fill_instructions : List FillInstruction

pub record ParsedArgs : Type 0 where
  pub order_id : GoString
  pub sender_address : GoString
  pub recipients : List Recipient
  pub resolved_order : ResolvedCrossChainOrder

-- What is needed to fill an intent.
pub record IntentData : Type 0 where
  pub fill_instructions : List FillInstruction
  pub max_spent : List Output

pub record AllowBlockListItem : Type 0 where
  pub sender_address : GoString
  pub destination_domain : GoString
  pub recipient_address : GoString

pub record AllowBlockLists : Type 0 where
  pub allow_list : List AllowBlockListItem
  pub block_list : List AllowBlockListItem
