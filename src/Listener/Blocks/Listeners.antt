-- ===== src/Listener/Blocks/Listeners.antt =====
-- solver/solvercore/solvers/hyperlane7683/listener_evm.go and listener_starknet.go: what the two
-- listeners do with one event, and their readings of a range.
use oif_starknet.Prelude.{
  ℕ, ◌-◌, ◌^◌, Bool, false, List, [], ◌∷◌, Option, none, some, ltb, map, if◌then◌else◌,
}
use oif_starknet.Prelude.Int.{ℤ, pos, negsuc}
use oif_starknet.Prelude.Result.{Result, ok, err, panic, wrapping}
use oif_starknet.Prelude.Text.{Bytes, GoString, str, str_eq}
use oif_starknet.Prelude.Hex.{encode_to_string}
use oif_starknet.Types.{Output, FillInstruction, ResolvedCrossChainOrder, ParsedArgs}
use oif_starknet.Types.Address.{Address, Geth}
use oif_starknet.Config.Networks.{Networks}
use oif_starknet.StarknetUtil.{Felts}
use oif_starknet.Listener.Decode.{decode_resolved_order_from_felts}
use oif_starknet.Listener.Blocks.{Outcome, process_block_range}

-- `base.EventHandler`
abbrev pub EventHandler : Type 0 → Type 0
EventHandler St = ParsedArgs → GoString → ℕ → St → Result Bool × St

-- The handler's error is printed, and forgotten.
unfoldable pub after_handler : {St : Type 0} → Result Bool × St → Outcome St
after_handler (ok handled, s) = (none, s)
after_handler (err e, s) = (none, s)
after_handler (panic p, s) = (some p, s)

-- `int64(block)`
unfoldable pub to_int64 : ℕ → ℤ
to_int64 n = if ltb n (2 ^ 63) then pos n else negsuc (2 ^ 64 - n - 1)

-- The structs of the generated binding's Open event.
pub record BoundOutput : Type 0 where
  pub token : Bytes
  pub amount : ℕ
  pub recipient : Bytes
  pub chain_id : ℕ

pub record BoundInstruction : Type 0 where
  pub destination_chain_id : ℕ
  pub destination_settler : Bytes
  pub origin_data : Bytes

pub record BoundOrder : Type 0 where
  pub user : Address
  pub origin_chain_id : ℕ
  pub open_deadline : ℕ
  pub fill_deadline : ℕ
  pub order_id : Bytes
  pub max_spent : List BoundOutput
  pub min_received : List BoundOutput
  pub fill_instructions : List BoundInstruction

pub record OpenEvent : Type 0 where
  pub order_id : Bytes
  pub resolved_order : BoundOrder
  pub block_number : ℕ

unfoldable pub bytes32_to_hex_string : Bytes → GoString
bytes32_to_hex_string b = 48 ∷ 120 ∷ encode_to_string b

unfoldable pub output_of_bound : BoundOutput → Output
unfolding bytes32_to_hex_string
output_of_bound o = record {
  token = bytes32_to_hex_string o.token;
  amount = o.amount;
  recipient = bytes32_to_hex_string o.recipient;
  chain_id = o.chain_id;
}

unfoldable pub instruction_of_bound : BoundInstruction → FillInstruction
unfolding bytes32_to_hex_string
instruction_of_bound i = record {
  destination_chain_id = i.destination_chain_id;
  destination_settler = bytes32_to_hex_string i.destination_settler;
  origin_data = i.origin_data;
}

-- `types.ParsedArgs` of an order: any recipient on the listener's own chain.
unfoldable pub parsed_args : Geth → GoString → Bytes → ResolvedCrossChainOrder → ParsedArgs
parsed_args g chain_name order_id order = record {
  order_id = g.hash_hex (g.bytes_to_hash order_id);
  sender_address = order.user;
  recipients = (record { destination_chain_name = chain_name; recipient_address = str "*" }) ∷ [];
  resolved_order = order;
}

-- What the Starknet node gives of an event; `fields` is its `Data`.
pub record EmittedEvent (Felt : Type 0) : Type 0 where
  pub keys : List Felt
  pub fields : List Felt
  pub block_number : ℕ

module _ {St : Type 0} (g : Geth) (chain_name : GoString) (handler : EventHandler St) where
  unfoldable pub order_of_bound : BoundOrder → ResolvedCrossChainOrder
  unfolding output_of_bound instruction_of_bound
  order_of_bound o = record {
    user = g.hex o.user;
    origin_chain_id = some o.origin_chain_id;
    open_deadline = o.open_deadline;
    fill_deadline = o.fill_deadline;
    order_id = o.order_id;
    max_spent = map output_of_bound o.max_spent;
    min_received = map output_of_bound o.min_received;
    fill_instructions = map instruction_of_bound o.fill_instructions;
  }

  unfoldable pub handle_parsed_open_event : OpenEvent → St → Result Bool × St
  unfolding order_of_bound parsed_args
  handle_parsed_open_event ev =
      handler (parsed_args g chain_name ev.order_id (order_of_bound ev.resolved_order)) chain_name
        ev.block_number

  -- What the binding gives for a log: `NewHyperlane7683Filterer`, and `ParseOpen`.
  module _ {Log : Type 0} (new_filterer : Result (Unit {0}))
      (parse_open : Log → Result OpenEvent) where
    unfoldable pub visit_parsed : Result OpenEvent → St → Outcome St
    unfolding handle_parsed_open_event after_handler
    visit_parsed (ok ev) s = after_handler (handle_parsed_open_event ev s)
    visit_parsed (err e) s = (none, s)
    visit_parsed (panic p) s = (some p, s)

    unfoldable pub with_filterer : Result (Unit {0}) → Log → St → Outcome St
    unfolding visit_parsed
    with_filterer (ok filterer) log s = visit_parsed (parse_open log) s
    with_filterer (err e) log s = (none, s)
    with_filterer (panic p) log s = (some p, s)

    -- The body of the loop over a block's logs.
    unfoldable pub visit_log : Log → St → Outcome St
    unfolding with_filterer
    visit_log = with_filterer new_filterer

    -- `processBlockRange` of the EVM listener. The query's bounds are signed numbers.
    unfoldable pub evm_process_block_range :
        ℕ → (Log → ℕ) → (ℤ → ℤ → St → Result (List Log)) → ℕ → ℕ → ℕ → St → Option (Result ℕ × St)
    unfolding visit_log to_int64 process_block_range
    evm_process_block_range fuel block_number filter_logs =
        process_block_range visit_log fuel block_number λ from_block to_block s.
          wrapping "failed to filter logs" (filter_logs (to_int64 from_block) (to_int64 to_block) s)

  module _ {Felt : Type 0} (fs : Felts Felt) (networks : Networks)
      (open_event_selector : Felt) where
    unfoldable pub is_open : List Felt → Bool
    is_open [] = false
    is_open (actual ∷ keys) = str_eq (fs.bytes actual) (fs.bytes open_event_selector)

    unfoldable pub visit_decoded : ℕ → Result ResolvedCrossChainOrder → St → Outcome St
    unfolding after_handler parsed_args
    visit_decoded b (ok ro) s =
        after_handler (handler (parsed_args g chain_name ro.order_id ro) chain_name b s)
    visit_decoded b (err e) s = (none, s)
    visit_decoded b (panic p) s = (some p, s)

    -- The body of the loop over a block's events; the block of an event is the loop's.
    unfoldable pub visit_event : EmittedEvent Felt → St → Outcome St
    unfolding is_open visit_decoded
    visit_event event s =
        if is_open event.keys
        then visit_decoded event.block_number
            (decode_resolved_order_from_felts fs networks event.fields) s
        else (none, s)

    -- `processBlockRange` of the Starknet listener, given the query's first page, of 128 events:
    -- its continuation is not asked for.
    unfoldable pub starknet_process_block_range :
        ℕ
        → (ℕ → ℕ → St → Result (List (EmittedEvent Felt)))
        → ℕ
        → ℕ
        → ℕ
        → St
        → Option (Result ℕ × St)
    unfolding visit_event process_block_range
    starknet_process_block_range fuel events =
        process_block_range visit_event fuel (λ event. event.block_number)
          λ from_block to_block s. wrapping "failed to filter events" (events from_block to_block s)
