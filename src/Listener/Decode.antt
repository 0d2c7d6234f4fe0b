-- ===== src/Listener/Decode.antt =====
-- solver/solvercore/solvers/hyperlane7683/listener_starknet.go: the decoder of an Open event's
-- field elements. A reader is a function of the data and the decoder's index, and gives a value
-- and the next index. `make` with a capacity beyond the data is not a case of its own: reading so
-- many entries panics in any case.
pub mod Reads
pub mod Layout
pub mod RoundTrip
pub mod OriginData
pub mod Sizes
use oif_starknet.Prelude.{
  ℕ, zero, suc, ◌+◌, ◌-◌, ◌*◌, ◌%◌, ◌^◌, Bool, List, [], ◌∷◌, ◌++◌, Option, none, some, ltb,
  if◌then◌else◌, length, get_elem?, drop, replicate,
}
use oif_starknet.Prelude.Result.{Result, ok, err, panic, index_out_of_range, slice_out_of_range}
use oif_starknet.Prelude.Text.{Bytes, GoString}
use oif_starknet.Prelude.Hex.{encode_to_string}
use oif_starknet.Prelude.BigInt.{big_bytes, to_uint64, to_uint32}
use oif_starknet.Types.{Output, FillInstruction, ResolvedCrossChainOrder}
use oif_starknet.Config.Networks.{NetworkConfig, Networks, by_domain}
use oif_starknet.StarknetUtil.{Felts}

abbrev pub Reader : Type 0 → Type 0 → Type 0
Reader Felt A = List Felt → ℕ → Result (A × ℕ)

module _ {Felt A B : Type 0} where
  unfoldable pub after_read : Result (A × ℕ) → List Felt → (A → Reader Felt B) → Result (B × ℕ)
  after_read (ok (a, i)) d f = f a d i
  after_read (err e) d f = err e
  after_read (panic p) d f = panic p

  infixl 10 ◌>>=◌
  unfoldable pub ◌>>=◌ : Reader Felt A → (A → Reader Felt B) → Reader Felt B
  unfolding after_read
  ◌>>=◌ m f d i = after_read (m d i) d f

unfoldable pub read_pure : {Felt A : Type 0} → A → Reader Felt A
read_pure a d i = ok (a, i)

module _ {Felt A : Type 0} where
  -- The loop that reads a number of entries.
  unfoldable pub read_many : ℕ → Reader Felt A → Reader Felt (List A)
  unfolding read_pure ◌>>=◌
  read_many zero entry = read_pure []
  read_many (suc n) entry = do x ← entry; rest ← read_many n entry; read_pure (x ∷ rest)

-- `d.data[i]`
unfoldable pub at_index : {A : Type 0} → Option A → Result A
at_index none = panic index_out_of_range
at_index (some a) = ok a

-- `uint64` of an `int64` is its 64-bit pattern: what `Uint64()` reads of `big.NewInt(int64(c))`
-- is `c` up to 2^63, and its distance to 2^64 beyond, where the number is negative.
unfoldable pub magnitude_of_int64 : ℕ → ℕ
magnitude_of_int64 c = if ltb c (2 ^ 63) then c else 2 ^ 64 - c

-- `domainToChainID`, and the domain itself where there is no network.
unfoldable pub chain_or_domain : ℕ → Option (GoString × NetworkConfig) → ℕ
unfolding magnitude_of_int64
chain_or_domain domain none = domain
chain_or_domain domain (some (k, n)) = magnitude_of_int64 n.chain_id

unfoldable pub domain_to_chain_id : Networks → ℕ → ℕ
unfolding chain_or_domain
domain_to_chain_id networks domain = chain_or_domain domain (by_domain domain networks)

-- `copy(orderArr[32-len(orderBytes):], orderBytes)`
unfoldable pub order_id_word : Bytes → Result Bytes
order_id_word b =
    if ltb 32 (length b) then panic slice_out_of_range else ok (replicate (32 - length b) 0 ++ b)

-- The words of the origin data: the offset of the struct, and the offset and size of its data.
abbrev pub first_word : Bytes
first_word = replicate 31 0 ++ (32 ∷ [])

abbrev pub data_offset : Bytes
data_offset = replicate 30 0 ++ (1 ∷ 128 ∷ [])

abbrev pub data_size : Bytes
data_size = replicate 32 0

-- The appends of `orderDataFields[1]` to `orderDataFields[11]`.
unfoldable pub append_fields : ℕ → List Bytes → Result Bytes
append_fields zero fields = ok []
append_fields (suc n) [] = panic index_out_of_range
append_fields (suc n) (f ∷ fields) = elim (append_fields n fields) [
  | ok rest ↦ ok (f ++ rest)
  | err e ↦ err e
  | panic p ↦ panic p
]

unfoldable pub origin_data_of : Result Bytes → Result Bytes
origin_data_of (ok fields) = ok (first_word ++ (fields ++ (data_offset ++ data_size)))
origin_data_of (err e) = err e
origin_data_of (panic p) = panic p

module _ {Felt : Type 0} (fs : Felts Felt) (networks : Networks) where
  unfoldable pub felt_at : Result Felt → ℕ → Result (Felt × ℕ)
  felt_at (ok f) i = ok (f, i + 1)
  felt_at (err e) i = err e
  felt_at (panic p) i = panic p

  unfoldable pub read_felt : Reader Felt Felt
  unfolding felt_at at_index
  read_felt d i = felt_at (at_index (get_elem? d i)) i

  unfoldable pub read_u32 : Reader Felt ℕ
  unfolding read_felt
  read_u32 = do f ← read_felt; read_pure (to_uint32 (to_uint64 (fs.felt_to_big_int f)))

  unfoldable pub read_u64 : Reader Felt ℕ
  unfolding read_felt
  read_u64 = do f ← read_felt; read_pure (to_uint64 (fs.felt_to_big_int f))

  unfoldable pub read_u256 : Reader Felt ℕ
  unfolding read_felt
  read_u256 = do
    low ← read_felt
    high ← read_felt
    read_pure (fs.felt_to_big_int low + fs.felt_to_big_int high * 2 ^ 128)

  -- `0x` and the hexadecimal text of the element's bytes, padded to 32.
  unfoldable pub address_text : Felt → GoString
  address_text f =
      let b = fs.bytes f in
      48
      ∷ 120
      ∷ encode_to_string (if ltb (length b) 32 then replicate (32 - length b) 0 ++ b else b)

  unfoldable pub read_address : Reader Felt GoString
  unfolding read_felt address_text
  read_address = do f ← read_felt; read_pure (address_text f)

  unfoldable pub read_output : Reader Felt Output
  unfolding read_address read_u256 read_u32
  read_output = do
    token ← read_address
    amount ← read_u256
    recipient ← read_address
    chain_domain ← read_u32
    read_pure (record {
      token = token;
      amount = amount;
      recipient = recipient;
      chain_id = domain_to_chain_id networks chain_domain;
    })

  unfoldable pub read_outputs : Reader Felt (List Output)
  unfolding read_u64 read_output
  read_outputs = do n ← read_u64; read_many n read_output

  -- `bytes32`: the low halves of two elements' bytes, the first in front.
  unfoldable pub order_data_word : Felt → Felt → Bytes
  order_data_word low high = drop 16 (fs.bytes low) ++ drop 16 (fs.bytes high)

  -- The loop of `parseOriginData` at index `i` of `n`, over what is left of the data.
  unfoldable pub order_data_fields : ℕ → ℕ → List Felt → List Bytes
  order_data_fields i n (low ∷ high ∷ rest) =
      let next = order_data_fields (i + 2) n rest in
      if ltb i n then order_data_word low high ∷ next else []
  order_data_fields i n rest = []

  -- `parseOriginData` reads at fixed indices, and leaves the decoder's index as it is.
  unfoldable pub origin_data_at : Option Felt → Option Felt → List Felt → Result Bytes
  unfolding order_data_fields append_fields origin_data_of
  origin_data_at none n d = panic index_out_of_range
  origin_data_at (some size) none d = panic index_out_of_range
  origin_data_at (some size) (some n) d = origin_data_of (
      append_fields 11
        (drop 1 (order_data_fields 0 (to_uint64 (fs.felt_to_big_int n)) (drop 23 d))))

  unfoldable pub keep_index : Result Bytes → ℕ → Result (Bytes × ℕ)
  keep_index (ok b) i = ok (b, i)
  keep_index (err e) i = err e
  keep_index (panic p) i = panic p

  unfoldable pub parse_origin_data : Reader Felt Bytes
  unfolding origin_data_at keep_index
  parse_origin_data d i = keep_index (origin_data_at (get_elem? d 21) (get_elem? d 22) d) i

  unfoldable pub read_fill_instruction : Reader Felt FillInstruction
  unfolding read_u32 read_address parse_origin_data
  read_fill_instruction = do
    destination_domain ← read_u32
    settler ← read_address
    origin_data ← parse_origin_data
    read_pure (record {
      destination_chain_id = domain_to_chain_id networks destination_domain;
      destination_settler = settler;
      origin_data = origin_data;
    })

  unfoldable pub read_fill_instructions : Reader Felt (List FillInstruction)
  unfolding read_u64 read_fill_instruction
  read_fill_instructions = do n ← read_u64; read_many n read_fill_instruction

  unfoldable pub read_order_id : Reader Felt Bytes
  unfolding read_u256 order_id_word
  read_order_id = do order_id ← read_u256; λ d i. keep_index (order_id_word (big_bytes order_id)) i

  unfoldable pub read_resolved_order : Reader Felt ResolvedCrossChainOrder
  unfolding read_address read_u32 read_u64 read_order_id read_outputs read_fill_instructions
  read_resolved_order = do
    user ← read_address
    origin ← read_u32
    open_deadline ← read_u64
    fill_deadline ← read_u64
    order_id ← read_order_id
    max_spent ← read_outputs
    min_received ← read_outputs
    fill_instructions ← read_fill_instructions
    read_pure (record {
      user = user;
      origin_chain_id = some origin;
      open_deadline = to_uint32 open_deadline;
      fill_deadline = to_uint32 fill_deadline;
      order_id = order_id;
      max_spent = max_spent;
      min_received = min_received;
      fill_instructions = fill_instructions;
    })

  -- `decodeResolvedOrderFromFelts`
  unfoldable pub value_read : Result (ResolvedCrossChainOrder × ℕ) → Result ResolvedCrossChainOrder
  value_read (ok (order, i)) = ok order
  value_read (err e) = err e
  value_read (panic p) = panic p

  unfoldable pub decode_resolved_order_from_felts : List Felt → Result ResolvedCrossChainOrder
  unfolding value_read read_resolved_order
  decode_resolved_order_from_felts d = value_read (read_resolved_order d 0)
