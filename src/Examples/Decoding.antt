-- ===== src/Examples/Decoding.antt =====
-- The decoder of an Open event's field elements.
use oif_starknet.Prelude.{
  some, none, ℕ, ◌+◌, ◌*◌, ◌%◌, ◌^◌, ◌≡◌, refl, List, [], ◌∷◌, ◌++◌, length, get_elem?, replicate,
  arith,
}
use oif_starknet.Prelude.Result.{Result, ok, err, panic, Ensures}
use oif_starknet.Prelude.Text.{Bytes}
use oif_starknet.StarknetUtil.{Felts, KeepsSmall, pad_bytes32}
use oif_starknet.StarknetUtil.Words.{pad_bytes32_lem}
use oif_starknet.Prelude.BigInt.{big_bytes}
use oif_starknet.OpenOrder.StarknetData.{
  StarknetOrderData, raw_order_data, encode_starknet_order_data,
}
use oif_starknet.OpenOrder.StarknetData.Words.{BigEndian}
use oif_starknet.OpenOrder.StarknetData.Decoded.{decode-encode_starknet_order_data}
use oif_starknet.Listener.Decode.{decode_resolved_order_from_felts, origin_data_at}
use oif_starknet.Listener.Decode.Layout.{OutputFields, OrderFields, lay_order, order_of}
use oif_starknet.Listener.Decode.RoundTrip.{decode_resolved_order_from_felts-lay_order}
use oif_starknet.Listener.Decode.OriginData.{lay_words}
use oif_starknet.Listener.Decode.Sizes.{Sized, decode_resolved_order_from_felts-Sized}
use oif_starknet.Examples.Data.{felts, felts-KeepsSmall, networks}

abbrev spent : OutputFields ℕ
spent = record { token = 11; amount = 2 ^ 200 + 3; recipient = 12; domain = 1 }

abbrev received : OutputFields ℕ
received = record { token = 13; amount = 5; recipient = 14; domain = 2 }

abbrev order_fields : OrderFields ℕ
order_fields = record {
  user = 10;
  origin_domain = 2;
  open_deadline = 2 ^ 40 + 1;
  fill_deadline = 9;
  order_id = 2 ^ 130 + 7;
  max_spent = spent ∷ [];
  min_received = received ∷ [];
  destination_domain = 1;
  destination_settler = 15;
}

abbrev words : List (ℕ × ℕ)
words = replicate 12 (7, 8)

-- Two outputs on one side: the fixed positions are in the middle of the second list of outputs.
abbrev two_spent : OrderFields ℕ
two_spent = record order_fields {
  max_spent = spent ∷ spent ∷ [];
  min_received = record received { domain = 24 } ∷ [];
}

abbrev behind : List ℕ
behind = replicate 40 6

abbrev bytes_or_none : Result Bytes → Bytes
bytes_or_none (ok b) = b
bytes_or_none (err e) = []
bytes_or_none (panic p) = []

abbrev laid : List ℕ
laid = lay_order felts networks two_spent ++ behind

abbrev fixed_data : Bytes
fixed_data =
    bytes_or_none (origin_data_at felts networks (get_elem? laid 21) (get_elem? laid 22) laid)

has_data :
    origin_data_at felts networks (get_elem? laid 21) (get_elem? laid 22) laid ≡ ok fixed_data
unfolding origin_data_at
has_data = refl

decode_lay_order_example :
    decode_resolved_order_from_felts felts networks (lay_order felts networks two_spent ++ behind)
    ≡ ok (order_of felts networks two_spent fixed_data)
decode_lay_order_example =
    decode_resolved_order_from_felts-lay_order felts networks felts-KeepsSmall fixed_data two_spent
      behind (omega arith) has_data

-- Field elements of 32 bytes.
abbrev whole_felts : Felts ℕ
whole_felts = record felts { bytes = λ n. replicate 31 0 ++ (n % 256 ∷ []) }

abbrev whole : (f : ℕ) → length (whole_felts.bytes f) ≡ 32
whole = λ f. refl

decode-Sized_example : Ensures (Sized whole_felts networks whole) (
    decode_resolved_order_from_felts whole_felts networks
      (lay_order whole_felts networks order_fields ++ (448 ∷ (2 * 12) ∷ lay_words words)))
decode-Sized_example =
    decode_resolved_order_from_felts-Sized whole_felts networks whole
      (lay_order whole_felts networks order_fields ++ (448 ∷ (2 * 12) ∷ lay_words words))

-- Numbers below 2^256 as field elements, with their 32 bytes.
abbrev big_felts : Felts ℕ
big_felts = record felts {
  felt_to_big_int = λ n. n % 2 ^ 256;
  bytes = λ n. pad_bytes32 (big_bytes (n % 2 ^ 256));
}

big_felts-BigEndian : BigEndian big_felts
big_felts-BigEndian = record {
  whole = λ f. let word = pad_bytes32_lem (f % 2 ^ 256) (omega arith) in (word.0, word.1);
  value = λ f. (pad_bytes32_lem (f % 2 ^ 256) (omega arith)).2;
  same = λ n h. refl;
}

big_felts-KeepsSmall : KeepsSmall big_felts
big_felts-KeepsSmall n h = omega arith

abbrev order_data : StarknetOrderData ℕ
order_data = record {
  sender = 21;
  recipient = 2 ^ 200 + 22;
  input_token = 23;
  output_token = 24;
  amount_in = some (2 ^ 130);
  amount_out = none;
  sender_nonce = 25;
  origin_domain = 1;
  destination_domain = 2;
  destination_settler = 26;
  open_deadline = 27;
  fill_deadline = 2 ^ 32 + 28;
  data_elements = [];
}

decode-encode_example :
    decode_resolved_order_from_felts big_felts networks
      (lay_order big_felts networks order_fields ++ encode_starknet_order_data big_felts order_data)
    ≡ ok (order_of big_felts networks order_fields (raw_order_data big_felts order_data))
decode-encode_example =
    decode-encode_starknet_order_data big_felts networks big_felts-BigEndian big_felts-KeepsSmall
      order_fields spent received order_data refl refl (omega arith)
