-- ===== src/Examples/Data.antt =====
-- Concrete third-party packages, networks and orders.
use oif_starknet.Prelude.{ℕ, ◌+◌, ◌-◌, ◌%◌, ◌^◌, refl, true, [], ◌∷◌, some, none, ltb, leb, take}
use oif_starknet.Prelude.Int.{pos}
use oif_starknet.Prelude.Result.{ok}
use oif_starknet.Prelude.Text.{GoString, str}
use oif_starknet.Types.{ParsedArgs, Output, FillInstruction, AllowBlockListItem, AllowBlockLists}
use oif_starknet.Types.Address.{Geth}
use oif_starknet.EnvUtil.{Env}
use oif_starknet.Config.Networks.{NetworkConfig, Networks}
use oif_starknet.StarknetUtil.{Felts, KeepsSmall}
use oif_starknet.Chain.{State}
use oif_starknet.Evm.Client.{EvmClient}
use oif_starknet.Starknet.Client.{StarknetClient}
use oif_starknet.Rules.Clients.{BalanceClients, Uint256, Uint256Laws}
use oif_starknet.Solver.Monad.{Solver}
use oif_starknet.Solver.Process.{Connections}

-- Texts are their own bytes; a hash is the first 32 of them.
abbrev pub geth : Geth
geth = record {
  from_hex = λ s. s;
  hex_to_address = λ s. s;
  bytes_to_address = λ b. b;
  hex = λ a. a;
  bytes_to_hash = λ b. take 32 b;
  hex_to_hash = λ s. take 32 s;
  hash_hex = λ b. b;
}

-- A field element is a number.
abbrev pub felts : Felts ℕ
felts = record {
  big_int_to_felt = λ n. n;
  felt_to_big_int = λ n. n;
  uint64_to_felt = λ n. n;
  hex_to_felt = λ s. ok 7;
  hex_to_bn = λ s. some (2 ^ 128 + 5);
  bytes = λ n. n ∷ [];
  to_string = λ n. [];
}

abbrev pub felts-KeepsSmall : KeepsSmall felts
felts-KeepsSmall = λ n h. refl

abbrev pub uint256 : Uint256 ℕ
uint256 = record {
  new_int = λ n. n % 2 ^ 64;
  from_big = λ n. n % 2 ^ 256;
  to_big = λ n. n;
  add = λ a b. (a + b) % 2 ^ 256;
  sub = λ a b. (a + 2 ^ 256 - b) % 2 ^ 256;
  cmp_le = leb;
  cmp_lt = ltb;
}

abbrev pub uint256_laws : Uint256Laws uint256
uint256_laws = record {
  new_int_value = λ n. refl;
  from_big_value = λ n. refl;
  add_value = λ a b. refl;
  sub_value = λ a b. refl;
  cmp_lt_value = λ a b. refl;
  cmp_le_value = λ a b. refl;
}

abbrev pub filled_text : GoString
filled_text = str "0x46494c4c45440000000000000000000000000000000000000000000000000000"

abbrev pub settler_text : GoString
settler_text = str "0xf614c6bF94b022E16BEF7dBecF7614FFD2b201d3"

-- A chain on which the order is filled.
abbrev pub evm_client : EvmClient ℕ
evm_client = record {
  abi_json = λ m. ok tt;
  abi_pack = λ m. ok tt;
  call_order_status = λ a b h. ok filled_text;
  call_allowance = λ a b h. ok [];
  chain_id = λ h. ok 1;
  pending_nonce_at = λ h. ok 0;
  suggest_gas_price = λ h. ok 1;
  sign_approve = λ t s a h. ok tt;
  send_approve = λ t s a h. ok tt;
  wait_mined = λ h. ok 1;
  new_hyperlane7683 = λ a h. ok tt;
  contract_fill = λ a b d v h. ok tt;
  contract_quote_gas_payment = λ a d h. ok 3;
  contract_settle = λ a b v h. ok tt;
  cancelled = λ h. ok tt;
}

abbrev pub starknet_client : StarknetClient ℕ
starknet_client = record {
  call_order_status = λ a b c h. ok (5 ∷ []);
  call_allowance = λ a b h. ok (0 ∷ 0 ∷ []);
  call_quote_gas_payment = λ a b h. ok (3 ∷ 0 ∷ []);
  send_invoke = λ a f d h. ok tt;
  wait_for_receipt = λ h. ok tt;
  cancelled = λ h. ok tt;
}

abbrev pub balance_clients : BalanceClients ℕ
balance_clients = record {
  new_provider = λ s. ok tt;
  call_starknet_balance = λ t o h. ok (100 ∷ []);
  dial = λ s. ok tt;
  abi_json = ok tt;
  abi_pack = ok tt;
  call_evm_balance = λ t o h. ok (100 ∷ []);
  unpack_balance = λ b. ok 100;
}

abbrev pub connections : Connections ℕ
connections = record {
  get_evm_client = λ id. ok evm_client;
  get_evm_signer = λ id. ok tt;
  new_provider = λ s. ok tt;
  reads_key = λ s. true;
  new_account = λ url a p. ok starknet_client;
}

-- Every variable is "true".
abbrev pub getenv : Env
getenv = λ name. str "true"

abbrev pub network : GoString → ℕ → NetworkConfig
network name id = record {
  name = name;
  rpc_url = str "http://localhost";
  chain_id = id;
  hyperlane_address = str "0x1";
  hyperlane_domain = id;
  fork_start_block = 0;
  solver_start_block = pos 0;
  poll_interval = pos 1000;
  confirmation_blocks = 0;
  max_block_range = 10;
}

abbrev pub ethereum : GoString × NetworkConfig
ethereum = (str "Ethereum", network (str "Ethereum") 1)

abbrev pub starknet : GoString × NetworkConfig
starknet = (str "Starknet", network (str "Starknet") 2)

abbrev pub networks : Networks
networks = ethereum ∷ starknet ∷ []

abbrev pub output : ℕ → Output
output amount = record { token = []; amount = amount; recipient = []; chain_id = 1 }

abbrev pub instruction : FillInstruction
instruction = record {
  destination_chain_id = 1;
  destination_settler = settler_text;
  origin_data = 9 ∷ [];
}

-- It costs one unit, and brings two; it starts at Starknet, and is filled at Ethereum.
abbrev pub order : ParsedArgs
order = record {
  order_id = str "0x0000000a";
  sender_address = str "0xa";
  recipients =
      record { destination_chain_name = str "Ethereum"; recipient_address = str "0xb" } ∷ [];
  resolved_order = record {
    user = str "0xa";
    origin_chain_id = some 2;
    open_deadline = 0;
    fill_deadline = 0;
    order_id = 10 ∷ [];
    max_spent = output 1 ∷ [];
    min_received = output 2 ∷ [];
    fill_instructions = instruction ∷ [];
  };
}

abbrev pub sender_item : AllowBlockListItem
sender_item = record {
  sender_address = str "0xa";
  destination_domain = str "*";
  recipient_address = str "*";
}

abbrev pub lists : AllowBlockLists
lists = record { allow_list = sender_item ∷ []; block_list = [] }

abbrev pub new_solver : Solver ℕ
new_solver = record { evm_handlers = []; hyperlane_starknet = none }

abbrev pub start : State ℕ
start = record { signer_value = none; history = [] }
