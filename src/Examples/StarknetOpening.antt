-- ===== src/Examples/StarknetOpening.antt =====
-- The orders that the tool opens on Starknet.
use oif_starknet.Prelude.{ℕ, ◌-◌, ◌≡◌, refl, [], ◌++◌, none, length, replicate}
use oif_starknet.Prelude.Int.{pos}
use oif_starknet.Prelude.Result.{ok}
use oif_starknet.OpenOrder.Random.{Draw}
use oif_starknet.OpenOrder.Random.Bounds.{IsDraw}
use oif_starknet.OpenOrder.StarknetOrders.{
  StarknetToolNetwork, StarknetOrderConfig, starknet_test_users, open_random_starknet_order,
  build_starknet_order_data,
}
use oif_starknet.OpenOrder.StarknetOrders.Opened.{HasData, build-open_random_starknet_order}
use oif_starknet.OpenOrder.StarknetData.{StarknetOrderData}
use oif_starknet.Prelude.Text.{Bytes, GoString, str}
use oif_starknet.OpenOrder.StarknetOrders.Built.{IsFilled, open_random_starknet_order_lem}
use oif_starknet.Examples.Data.{geth, getenv, felts, networks}

-- The random source fails, and the time is taken.
abbrev timed : ℕ → Draw
timed t = record { bytes = none; unix_nano = pos t }

timed-IsDraw : (t : ℕ) → IsDraw (timed t)
timed-IsDraw t = (λ b e. cc, (t, refl))

open_random_starknet_order_example :
    (order : StarknetOrderConfig) × (open_random_starknet_order geth getenv networks
        (timed 5)
        (timed 1000017)
        (timed 31)
        9
      ≡ ok order)
    × IsFilled geth getenv order
open_random_starknet_order_example =
    open_random_starknet_order_lem geth getenv networks (timed 5) (timed 1000017) (timed 31) 9
      (timed-IsDraw 5) (timed-IsDraw 1000017) (timed-IsDraw 31)

abbrev pad : Bytes → ℕ → Bytes
pad b size = replicate (size - length b) 0 ++ b

abbrev origin : StarknetToolNetwork
origin = record {
  name = str "Starknet";
  url = [];
  chain_id = 2;
  hyperlane_address = str "0x5";
  dog_coin_address = str "0x6";
}

-- The element of a text is its number of bytes here.
abbrev element_of : GoString → ℕ
element_of s = length s

build-open_random_starknet_order_example :
    (order : StarknetOrderConfig) × (open_random_starknet_order geth getenv networks
        (timed 5)
        (timed 1000017)
        (timed 31)
        9
      ≡ ok order)
    × (od : StarknetOrderData ℕ) × (build_starknet_order_data geth getenv felts pad element_of
          (starknet_test_users geth getenv)
          networks
          order
          origin
          2
          1
          7
          (str "Ethereum")
        ≡ ok od)
    × HasData geth getenv felts pad element_of origin 2 1 7 (str "Ethereum") order od
build-open_random_starknet_order_example =
    build-open_random_starknet_order geth getenv felts pad element_of origin 2 1 7 (str "Ethereum")
      networks (timed 5) (timed 1000017) (timed 31) 9 (timed-IsDraw 5) (timed-IsDraw 1000017)
      (timed-IsDraw 31)
