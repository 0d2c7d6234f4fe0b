-- ===== src/OpenOrder/Random.antt =====
-- solver/cmd/tools/open-order/evm_order.go: the random draws, and the orders that the commands
-- `random-to-evm`, `random-to-sn`, `default-evm-evm` and `default-evm-sn` make of them. The random
-- bytes and the time are parameters; an order is what is handed to `executeOrder`.
pub mod Bounds
pub mod Profit
use oif_starknet.Prelude.{
  ℕ, zero, suc, ◌+◌, ◌-◌, ◌*◌, ◌%◌, ◌^◌, Bool, not, List, [], ◌∷◌, Option, none, some, ltb, ◌==◌,
  if◌then◌else◌, length, get_elem?,
}
use oif_starknet.Prelude.Int.{ℤ, pos, negsuc, ◌+ℤ◌, rem, int64_of, uint64_of}
use oif_starknet.Prelude.Result.{Result, ok, err, panic, errorf, index_out_of_range, ◌>>=◌}
use oif_starknet.Prelude.Text.{Bytes, GoString, str, str_eq}
use oif_starknet.Types.Address.{Address}

-- What a call of `secureRandomInt` draws: the bytes of `rand.Read`, none if it fails, and the time
-- that is taken then.
pub record Draw : Type 0 where
  pub bytes : Option Bytes
  pub unix_nano : ℤ

-- The 64-bit pattern of `result` after the loop.
unfoldable pub random_loop : ℕ → Bytes → ℕ
random_loop result [] = result
random_loop result (b ∷ bs) = random_loop ((result * 256 + b) % 2 ^ 64) bs

-- `if result < 0 { result = -result }`
unfoldable pub absolute : ℕ → ℕ
absolute result = if ltb result (2 ^ 63) then result else (2 ^ 64 - result) % 2 ^ 64

unfoldable pub drawn_or_time : ℕ → Option Bytes → ℤ → ℤ
unfolding random_loop absolute
drawn_or_time max_value none unix_nano = rem unix_nano max_value
drawn_or_time max_value (some b) unix_nano = rem (int64_of (absolute (random_loop 0 b))) max_value

unfoldable pub secure_random_int : ℕ → Draw → ℤ
unfolding drawn_or_time
secure_random_int max_value d =
    if max_value == 0 then pos 0 else drawn_or_time max_value d.bytes d.unix_nano

-- The product in 256 bits.
unfoldable pub create_token_amount : ℤ → ℕ → ℕ
create_token_amount tokens decimals = (uint64_of tokens * (10 ^ decimals % 2 ^ 256)) % 2 ^ 256

abbrev pub min_token_amount : ℕ
min_token_amount = 100

abbrev pub max_token_amount : ℕ
max_token_amount = 10000

abbrev pub min_delta_amount : ℕ
min_delta_amount = 1

abbrev pub max_delta_amount : ℕ
max_delta_amount = 10

abbrev pub token_decimals : ℕ
token_decimals = 18

abbrev pub test_input_amount : ℕ
test_input_amount = 1001

abbrev pub starknet_network_name : GoString
starknet_network_name = str "Starknet"

-- `NetworkConfig` of the tool.
pub record ToolNetwork : Type 0 where
  pub name : GoString
  pub url : GoString
  pub chain_id : ℕ
  pub hyperlane_address : Address
  pub dog_coin_address : Address

pub record OrderConfig : Type 0 where
  pub origin_chain : GoString
  pub destination_chain : GoString
  pub input_token : GoString
  pub output_token : GoString
  pub input_amount : ℤ
  pub output_amount : ℤ
  pub user : GoString
  pub open_deadline : ℕ
  pub fill_deadline : ℕ

abbrev pub dog_coin : GoString
dog_coin = str "DogCoin"

abbrev pub alice_user_name : GoString
alice_user_name = str "Alice"

-- The loop that leaves out Starknet.
unfoldable pub evm_networks : List ToolNetwork → List ToolNetwork
evm_networks [] = []
evm_networks (n ∷ rest) =
    if not (str_eq n.name starknet_network_name) then n ∷ evm_networks rest else evm_networks rest

-- `networks[i]`
unfoldable pub network_at : List ToolNetwork → ℤ → Result ToolNetwork
network_at ns (pos i) = elim (get_elem? ns i) [ none ↦ panic index_out_of_range | some n ↦ ok n ]
network_at ns (negsuc i) = panic index_out_of_range

unfoldable pub same_index : ℤ → ℤ → Bool
same_index (pos a) (pos b) = a == b
same_index (pos a) (negsuc b) = Bool.false
same_index (negsuc a) (pos b) = Bool.false
same_index (negsuc a) (negsuc b) = a == b

-- `for destIdx == originIdx { … }` on a number of rounds; nothing where it goes on longer.
unfoldable pub other_index : ℕ → ℕ → ℤ → ℤ → Option ℤ
unfolding same_index
other_index zero size origin dest = if same_index dest origin then none else some dest
other_index (suc rounds) size origin dest =
    let next = other_index rounds size origin (rem (origin +ℤ pos 1) size) in
    if same_index dest origin then next else some dest

-- The draws of a command, in the order of its calls.
pub record Draws : Type 0 where
  pub origin : Draw
  pub destination : Draw
  pub amount : Draw
  pub delta : Draw

unfoldable pub random_tokens : Draw → ℕ
unfolding secure_random_int create_token_amount
random_tokens d =
    create_token_amount
      (secure_random_int (max_token_amount - min_token_amount + 1) d +ℤ pos min_token_amount)
      token_decimals

unfoldable pub random_delta : Draw → ℤ
unfolding secure_random_int
random_delta d =
    secure_random_int (max_delta_amount - min_delta_amount + 1) d +ℤ pos min_delta_amount

-- An order between two chains; `now` is the time in seconds.
unfoldable pub order_between : GoString → GoString → ℤ → ℤ → ℕ → OrderConfig
order_between origin destination input output now = record {
  origin_chain = origin;
  destination_chain = destination;
  input_token = dog_coin;
  output_token = dog_coin;
  input_amount = input;
  output_amount = output;
  user = alice_user_name;
  open_deadline = (now + 3600) % 2 ^ 32;
  fill_deadline = (now + 24 * 3600) % 2 ^ 32;
}

unfoldable pub evm_order : List ToolNetwork → Draws → ℕ → ℤ → Option ℤ → Option (Result OrderConfig)
unfolding network_at random_tokens random_delta create_token_amount order_between
evm_order evm draws now origin_idx none = none
evm_order evm draws now origin_idx (some dest_idx) =
    let output_amount = random_tokens draws.amount in
    let delta = create_token_amount (random_delta draws.delta) token_decimals in
    some (do
      origin ← network_at evm origin_idx
      destination ← network_at evm dest_idx
      ok (
          order_between origin.name destination.name (pos output_amount +ℤ pos delta)
            (pos output_amount) now))

-- `openRandomToEvm`, on a number of rounds of its loop.
unfoldable pub open_random_to_evm : ℕ → List ToolNetwork → Draws → ℕ → Option (Result OrderConfig)
unfolding evm_networks secure_random_int other_index evm_order
open_random_to_evm rounds networks draws now =
    let evm = evm_networks networks in
    let origin_idx = secure_random_int (length evm) draws.origin in
    let dest_idx = secure_random_int (length evm) draws.destination in
    let order =
      evm_order evm draws now origin_idx (other_index rounds (length evm) origin_idx dest_idx) in
    if length evm == 0 then some (err (errorf "no EVM networks configured")) else order

-- `openRandomToStarknet`; the margin is not scaled by the token's decimals.
unfoldable pub open_random_to_starknet : List ToolNetwork → Draws → ℕ → Result OrderConfig
unfolding evm_networks secure_random_int network_at random_tokens random_delta order_between
open_random_to_starknet networks draws now =
    let evm = evm_networks networks in
    let output_amount = random_tokens draws.amount in
    let input_amount = pos output_amount +ℤ random_delta draws.delta in
    if length evm == 0 then err (errorf "no EVM networks configured") else (do
      origin ← network_at evm (secure_random_int (length evm) draws.origin)
      ok (order_between origin.name starknet_network_name input_amount (pos output_amount) now))

unfoldable pub default_order : GoString → ℕ → OrderConfig
unfolding create_token_amount order_between
default_order destination now =
    order_between (str "Ethereum") destination
      (pos (create_token_amount (pos test_input_amount) token_decimals))
      (pos (create_token_amount (pos 1000) 18)) now

-- `RunEVMOrder`
unfoldable pub run_evm_order :
    GoString → ℕ → List ToolNetwork → Draws → ℕ → Option (Result OrderConfig)
unfolding open_random_to_evm open_random_to_starknet default_order
run_evm_order command rounds networks draws now =
    if str_eq command (str "random-to-evm")
    then open_random_to_evm rounds networks draws now
    else if str_eq command (str "random-to-sn")
    then some (open_random_to_starknet networks draws now)
    else if str_eq command (str "default-evm-evm")
    then some (ok (default_order (str "Optimism") now))
    else if str_eq command (str "default-evm-sn")
    then some (ok (default_order starknet_network_name now))
    else open_random_to_evm rounds networks draws now
