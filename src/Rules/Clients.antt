-- ===== src/Rules/Clients.antt =====
-- What the rules call of third-party packages: connections, balance calls, and 256-bit numbers.
use oif_starknet.Prelude.{ℕ, ◌+◌, ◌-◌, ◌%◌, ◌^◌, ◌≡◌, List, Bool, ltb, leb}
use oif_starknet.Prelude.Result.{Result}
use oif_starknet.Prelude.Text.{Bytes, GoString}
use oif_starknet.Types.Address.{Address}
use oif_starknet.Chain.{History}

pub record BalanceClients (Felt : Type 0) : Type 0 where
  -- `rpc.NewProvider`, and `provider.Call` of `balanceOf` at a token, for an owner
  pub new_provider : GoString → Result (Unit {0})
  pub call_starknet_balance : Felt → Felt → History Felt → Result (List Felt)
  -- `ethclient.Dial`, and the parts of `ethutil.ERC20Balance`
  pub dial : GoString → Result (Unit {0})
  pub abi_json : Result (Unit {0})
  pub abi_pack : Result (Unit {0})
  pub call_evm_balance : Address → Address → History Felt → Result Bytes
  pub unpack_balance : Bytes → Result ℕ

-- `uint256.Int` of holiman/uint256.
pub record Uint256 (U : Type 0) : Type 0 where
  pub new_int : ℕ → U
  pub from_big : ℕ → U
  pub to_big : U → ℕ
  pub add : U → U → U
  pub sub : U → U → U
  -- `a.Cmp(b) <= 0` and `a.Cmp(b) < 0`
  pub cmp_le : U → U → Bool
  pub cmp_lt : U → U → Bool

-- Its documentation: numbers modulo 2^256, compared by value.
pub record Uint256Laws {U : Type 0} (u : Uint256 U) : Type 0 where
  pub new_int_value : (n : ℕ) → u.to_big (u.new_int n) ≡ n % 2 ^ 64
  pub from_big_value : (n : ℕ) → u.to_big (u.from_big n) ≡ n % 2 ^ 256
  pub add_value : (a b : U) → u.to_big (u.add a b) ≡ (u.to_big a + u.to_big b) % 2 ^ 256
  pub sub_value : (a b : U) → u.to_big (u.sub a b) ≡ (u.to_big a + 2 ^ 256 - u.to_big b) % 2 ^ 256
  pub cmp_lt_value : (a b : U) → u.cmp_lt a b ≡ ltb (u.to_big a) (u.to_big b)
  pub cmp_le_value : (a b : U) → u.cmp_le a b ≡ leb (u.to_big a) (u.to_big b)
