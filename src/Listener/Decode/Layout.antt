-- ===== src/Listener/Decode/Layout.antt =====
-- The layout of an Open event, and what the decoder makes of it.
use oif_starknet.Prelude.{ℕ, ◌-◌, ◌^◌, ◌<◌, List, [], ◌∷◌, ◌++◌, some, length, replicate, map, All}
use oif_starknet.Prelude.Text.{Bytes}
use oif_starknet.Prelude.BigInt.{big_bytes, to_uint32}
use oif_starknet.Types.{Output, FillInstruction, ResolvedCrossChainOrder}
use oif_starknet.Config.Networks.{Networks}
use oif_starknet.StarknetUtil.{Felts, KeepsSmall, split_u256}
use oif_starknet.Listener.Decode.{address_text, read_output, read_outputs, domain_to_chain_id}
use oif_starknet.Listener.Decode.Reads.{
  Reads, lay_all, Reads-read_pure, Reads-bind, Reads-many, Reads-read_address, Reads-read_u32,
  Reads-read_u64, Reads-read_u256,
}

-- An output as the event has it.
pub record OutputFields (Felt : Type 0) : Type 0 where
  pub token : Felt
  pub amount : ℕ
  pub recipient : Felt
  pub domain : ℕ

abbrev pub FitsOutput : {Felt : Type 0} → OutputFields Felt → Type 0
FitsOutput o = (o.amount < 2 ^ 256) × (o.domain < 2 ^ 32)

-- An order with one fill instruction, as the event has it.
pub record OrderFields (Felt : Type 0) : Type 0 where
  pub user : Felt
  pub origin_domain : ℕ
  pub open_deadline : ℕ
  pub fill_deadline : ℕ
  pub order_id : ℕ
  pub max_spent : List (OutputFields Felt)
  pub min_received : List (OutputFields Felt)
  pub destination_domain : ℕ
  pub destination_settler : Felt

abbrev pub FitsOrder : {Felt : Type 0} → OrderFields Felt → Type 0
FitsOrder o =
    (o.origin_domain < 2 ^ 32)
    × (o.open_deadline < 2 ^ 64)
    × (o.fill_deadline < 2 ^ 64)
    × (o.order_id < 2 ^ 256)
    × All FitsOutput o.max_spent
    × (length o.max_spent < 2 ^ 64)
    × All FitsOutput o.min_received
    × (length o.min_received < 2 ^ 64)
    × (o.destination_domain < 2 ^ 32)

module _ {Felt : Type 0} (fs : Felts Felt) (networks : Networks) where
  abbrev pub lay_u256 : ℕ → List Felt
  lay_u256 n = (split_u256 fs n).0 ∷ (split_u256 fs n).1 ∷ []

  abbrev pub lay_output : OutputFields Felt → List Felt
  lay_output o =
      (o.token ∷ [])
      ++ (lay_u256 o.amount ++ ((o.recipient ∷ []) ++ ((fs.big_int_to_felt o.domain ∷ []) ++ [])))

  abbrev pub lay_outputs : List (OutputFields Felt) → List Felt
  lay_outputs os = (fs.big_int_to_felt (length os) ∷ []) ++ lay_all lay_output os

  -- The elements of an order up to its origin data.
  abbrev pub lay_order : OrderFields Felt → List Felt
  lay_order o =
      (o.user ∷ [])
      ++ ((fs.big_int_to_felt o.origin_domain ∷ [])
          ++ ((fs.big_int_to_felt o.open_deadline ∷ [])
              ++ ((fs.big_int_to_felt o.fill_deadline ∷ [])
                  ++ (lay_u256 o.order_id
                      ++ (lay_outputs o.max_spent
                          ++ (lay_outputs o.min_received
                              ++ ((fs.big_int_to_felt 1 ∷ [])
                                  ++ ((fs.big_int_to_felt o.destination_domain ∷ [])
                                      ++ (o.destination_settler ∷ [])))))))))

  -- The values that stand for the fields; of a deadline, its low 32 bits.
  abbrev pub output_of : OutputFields Felt → Output
  output_of o = record {
    token = address_text fs networks o.token;
    amount = o.amount;
    recipient = address_text fs networks o.recipient;
    chain_id = domain_to_chain_id networks o.domain;
  }

  abbrev pub instruction_of : OrderFields Felt → Bytes → FillInstruction
  instruction_of o origin_data = record {
    destination_chain_id = domain_to_chain_id networks o.destination_domain;
    destination_settler = address_text fs networks o.destination_settler;
    origin_data = origin_data;
  }

  abbrev pub order_of : OrderFields Felt → Bytes → ResolvedCrossChainOrder
  order_of o origin_data = record {
    user = address_text fs networks o.user;
    origin_chain_id = some o.origin_domain;
    open_deadline = to_uint32 o.open_deadline;
    fill_deadline = to_uint32 o.fill_deadline;
    order_id = replicate (32 - length (big_bytes o.order_id)) 0 ++ big_bytes o.order_id;
    max_spent = map output_of o.max_spent;
    min_received = map output_of o.min_received;
    fill_instructions = instruction_of o origin_data ∷ [];
  }

  module _ (keeps : KeepsSmall fs) (K : List Felt → Type 0) where
    read_output-Reads :
        (o : OutputFields Felt)
        → FitsOutput o
        → Reads K (read_output fs networks) (lay_output o) (output_of o)
    unfolding read_output
    read_output-Reads o h = Reads-bind K _ _ _ _ _ _ (Reads-read_address K fs networks o.token) (
        Reads-bind K _ _ _ _ _ _ (Reads-read_u256 K fs networks keeps o.amount h.0) (
          Reads-bind K _ _ _ _ _ _ (Reads-read_address K fs networks o.recipient) (
            Reads-bind K _ _ _ _ _ _ (Reads-read_u32 K fs networks keeps o.domain h.1)
              (Reads-read_pure K _))))

    -- Any number of outputs is read back.
    pub read_outputs-Reads :
        (os : List (OutputFields Felt))
        → All FitsOutput os
        → length os < 2 ^ 64
        → Reads K (read_outputs fs networks) (lay_outputs os) (map output_of os)
    unfolding read_outputs
    read_outputs-Reads os fits h =
        Reads-bind K _ _ _ _ _ _ (Reads-read_u64 K fs networks keeps (length os) h)
          (Reads-many K FitsOutput _ lay_output output_of read_output-Reads os fits)
