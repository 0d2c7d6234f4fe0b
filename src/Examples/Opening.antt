-- ===== src/Examples/Opening.antt =====
-- The orders that the tool opens, and the base solver.
use oif_starknet.Prelude.{
  ◌++◌, sym, ℕ, ◌+◌, ◌*◌, ◌^◌, ◌≡◌, ◌<◌, ◌≤◌, refl, Bool, true, false, [], ◌∷◌, some, none, length,
  replicate, arith, ◌↔◌, ◌⊎◌, ltb, if◌then◌else◌, All,
}
use oif_starknet.Prelude.Int.{ℤ, pos, negsuc}
use oif_starknet.Prelude.Result.{Result, ok, err, errorf, Error, ◌>>=◌}
use oif_starknet.Prelude.Text.{Bytes, GoString, str, str_eq}
use oif_starknet.Types.AllowBlock
use oif_starknet.Types.Address.{copy_at}
use oif_starknet.BaseSolver.{SolverImpl, process_intent}
use oif_starknet.BaseSolver.Rulings.{Accepts, Rejected, process_intent_iff}
use oif_starknet.OpenOrder.Random.{
  Draw, Draws, ToolNetwork, OrderConfig, evm_networks, random_loop, secure_random_int,
  order_between, starknet_network_name, open_random_to_evm, open_random_to_starknet,
}
use oif_starknet.OpenOrder.Random.Bounds.{IsDraw}
use oif_starknet.OpenOrder.Random.Profit.{
  AreDraws, BetweenEvm, open_random_to_evm_lem, open_random_to_evm-single,
  open_random_to_starknet_lem,
}
use oif_starknet.Examples.Data.{geth, lists, order}
use oif_starknet.Examples.Data
use oif_starknet.Config.Networks.{Networks, get_hyperlane_domain, get_network_config}
use oif_starknet.OpenOrder.EvmData.{
  TestUsers, first_nonce, pick_valid_sender_nonce, evm_settler, padded_address, build_order_data,
  convert_to_abi_order_data,
}
use oif_starknet.OpenOrder.EvmData.Nonce.{FirstFrom, pick_valid_sender_nonce_iff}

abbrev tool_network : GoString → ℕ → ToolNetwork
tool_network name chain_id = record {
  name = name;
  url = [];
  chain_id = chain_id;
  hyperlane_address = replicate 20 7;
  dog_coin_address = replicate 19 0 ++ (chain_id ∷ []);
}

abbrev ethereum : ToolNetwork
ethereum = tool_network (str "Ethereum") 1

abbrev starknet : ToolNetwork
starknet = tool_network (str "Starknet") 2

abbrev base : ToolNetwork
base = tool_network (str "Base") 3

abbrev draw_of : ℕ → Draw
draw_of n = record { bytes = some (255 ∷ 0 ∷ 0 ∷ 0 ∷ 0 ∷ 0 ∷ 0 ∷ n ∷ []); unix_nano = pos 0 }

abbrev draws : Draws
draws = record {
  origin = draw_of 1;
  destination = draw_of 3;
  amount = record { bytes = none; unix_nano = pos 1700000000123456789 };
  delta = draw_of 6;
}

some_injective : {A : Type 0} (a b : A) → some a ≡ some b → a ≡ b
some_injective a b h = cc

drawn :
    (b c : Bytes) → ¬ (random_loop 0 b ≡ 2 ^ 63) → some b ≡ some c → ¬ (random_loop 0 c ≡ 2 ^ 63)
drawn b c h e = rw (sym (some_injective b c e)) h

draw_of-IsDraw : (n : ℕ) → n < 256 → IsDraw (draw_of n)
unfolding random_loop
draw_of-IsDraw n h =
    (λ b e. drawn (255 ∷ 0 ∷ 0 ∷ 0 ∷ 0 ∷ 0 ∷ 0 ∷ n ∷ []) b (λ k. omega arith) e, (0, refl))

timed-IsDraw : (t : ℕ) → IsDraw (record { bytes = none; unix_nano = pos t })
timed-IsDraw t = (λ b e. cc, (t, refl))

draws-AreDraws : AreDraws draws
draws-AreDraws = (
  draw_of-IsDraw 1 (omega arith),
  draw_of-IsDraw 3 (omega arith),
  timed-IsDraw 1700000000123456789,
  draw_of-IsDraw 6 (omega arith),
)

three_networks : 2 ≤ length (evm_networks (ethereum ∷ starknet ∷ base ∷ []))
unfolding evm_networks str_eq
three_networks = omega arith

one_network : length (evm_networks (starknet ∷ base ∷ [])) ≡ 1
unfolding evm_networks str_eq
one_network = refl

open_random_to_evm_example :
    (origin : ToolNetwork) × (destination : ToolNetwork) × (amount : ℕ) × (margin : ℕ) × BetweenEvm
      (ethereum ∷ starknet ∷ base ∷ [])
      origin
      destination
    × (100 ≤ amount)
    × (amount ≤ 10000)
    × (1 ≤ margin)
    × (margin ≤ 10)
    × (open_random_to_evm 1 (ethereum ∷ starknet ∷ base ∷ []) draws 1700000000
        ≡ some (
            ok (
              order_between origin.name destination.name
                (pos ((amount + margin) * 10 ^ 18))
                (pos (amount * 10 ^ 18))
                1700000000)))
open_random_to_evm_example =
    open_random_to_evm_lem 1 (ethereum ∷ starknet ∷ base ∷ []) draws 1700000000 (omega arith)
      three_networks draws-AreDraws

open_random_to_evm-single_example :
    open_random_to_evm 5 (starknet ∷ base ∷ []) draws 1700000000 ≡ none
open_random_to_evm-single_example =
    open_random_to_evm-single 5 (starknet ∷ base ∷ []) draws 1700000000 one_network draws-AreDraws

open_random_to_starknet_example :
    (origin : ToolNetwork) × (amount : ℕ) × (margin : ℕ) × ¬ (origin.name ≡ starknet_network_name)
    × (100 ≤ amount)
    × (amount ≤ 10000)
    × (1 ≤ margin)
    × (margin ≤ 10)
    × (open_random_to_starknet (starknet ∷ base ∷ []) draws 1700000000
        ≡ ok (
            order_between origin.name starknet_network_name
              (pos (amount * 10 ^ 18 + margin))
              (pos (amount * 10 ^ 18))
              1700000000))
open_random_to_starknet_example =
    open_random_to_starknet_lem (starknet ∷ base ∷ []) draws 1700000000 (omega (arith, one_network))
      draws-AreDraws

-- The least `int64` has no positive counterpart, and the draw is negative.
least_draw :
    secure_random_int 10
      (record { bytes = some (128 ∷ 0 ∷ 0 ∷ 0 ∷ 0 ∷ 0 ∷ 0 ∷ 0 ∷ []); unix_nano = pos 0 })
    ≡ negsuc 7
unfolding secure_random_int
least_draw = refl

abbrev accepts_from : ℕ → ℕ → Result Bool
accepts_from least n = if ltb n least then ok false else ok true

pick_valid_sender_nonce_example : (pick_valid_sender_nonce (accepts_from 12) 1000010 ≡ ok 12) ↔ (
    (first_nonce 1000010 ≤ 12)
    × (12 < first_nonce 1000010 + 1000)
    × FirstFrom (accepts_from 12) (first_nonce 1000010) 12)
pick_valid_sender_nonce_example = pick_valid_sender_nonce_iff (accepts_from 12) 1000010 12

-- A rule that compares an order's deadline with the metadata.
abbrev base_solver : SolverImpl ℕ
base_solver = record {
  rules =
      (λ args m. if ltb args.resolved_order.fill_deadline m then ok tt else err (errorf "late"))
      ∷ [];
  allow_block_lists = lists;
  metadata = 3;
}

process_intent_iff_example :
    ((process_intent base_solver order ≡ ok true) ↔ (
      (AllowBlock.is_allowed_intent lists order ≡ true) × All (Accepts order 3) base_solver.rules))
    × ((process_intent base_solver order ≡ ok false) ↔ (
        (AllowBlock.is_allowed_intent lists order ≡ false)
        ⊎ ((AllowBlock.is_allowed_intent lists order ≡ true) × Rejected order 3 base_solver.rules)))
    × ((x : Error) → ¬ (process_intent base_solver order ≡ err x))
process_intent_iff_example = process_intent_iff base_solver order

abbrev opened : OrderConfig
opened = order_between (str "Ethereum") (str "Base") (pos 1001) (pos 1000) 5

abbrev from_big : ℤ → Result ℕ
from_big (pos n) = ok n
from_big (negsuc n) = err (errorf "negative")

abbrev domains : Networks
domains = (str "Base", Data.network (str "Base") 3) ∷ []

abbrev users : TestUsers
users = (str "Alice", str "0xa11ce") ∷ []

-- The order data that the tool fills in.
filled_data :
    (build_order_data geth (λ k. []) from_big domains opened ethereum base 1 5 >>= (λ od.
      convert_to_abi_order_data geth (λ k. []) users od 12 (ethereum ∷ starknet ∷ base ∷ [])))
    ≡ ok (record {
      sender = copy_at 12 (str "0xa11ce");
      recipient = copy_at 12 (str "0xa11ce");
      input_token = padded_address ethereum.dog_coin_address;
      output_token = padded_address base.dog_coin_address;
      amount_in = 1001;
      amount_out = 1000;
      sender_nonce = 12;
      origin_domain = 1;
      destination_domain = 3;
      destination_settler = copy_at 12 evm_settler;
      fill_deadline = opened.fill_deadline;
      data_bytes = [];
    })
unfolding order_between build_order_data convert_to_abi_order_data get_hyperlane_domain
    get_network_config str_eq
filled_data = refl
