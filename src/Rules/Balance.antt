-- ===== src/Rules/Balance.antt =====
-- `BalanceRule`: the solver has the tokens that it will spend, at the destination chain.

use oif_starknet.Prelude.{
  ℕ, Bool, true, false, List, [], ◌∷◌, Option, none, some, ◌||◌, ◌&&◌, ltb, ◌==◌, if◌then◌else◌,
  length,
}
use oif_starknet.Prelude.Result.{Result, ok, err, panic, Error, index_out_of_range}
use oif_starknet.Prelude.Text.{GoString, str, str_eq}
use oif_starknet.Prelude.BigInt.{to_uint64}
use oif_starknet.Types.{ParsedArgs, Output, FillInstruction}
use oif_starknet.Types.Address.{Address, Geth, to_evm_address}
use oif_starknet.EnvUtil.{
  Env, get_starknet_solver_address, get_starknet_rpc_url, get_solver_public_key,
}
use oif_starknet.Config.Networks.{NetworkConfig, Networks, by_chain_id}
use oif_starknet.StarknetUtil.{Felts}
use oif_starknet.Chain.{
  evm_balance, starknet_balance, M, pure, fail, lift, ask, wrapping, attempt, ◌>>=◌, ◌>>◌,
}
use oif_starknet.Rules.Clients.{BalanceClients}

-- The reason's text by its kind, with the values that it shows.
pub data Reason : Type 0 where
  no_tokens_to_spend all_rules_passed starknet_balance_passed evm_balance_passed : Reason
  address_not_set rpc_url_not_set no_network_config missing_data not_profitable : Reason
  below_threshold profitable : Reason
  connection_failed : Error → Reason
  balance_check_failed : GoString → Error → Reason
  token_conversion_failed : GoString → Error → Reason
  insufficient_balance : GoString → ℕ → ℕ → Reason
  custom : GoString → Reason

pub record RuleResult : Type 0 where
  pub passed : Bool
  pub reason : Reason

abbrev pub pass : Reason → RuleResult
pass r = record { passed = true; reason = r }

abbrev pub reject : Reason → RuleResult
reject r = record { passed = false; reason = r }

-- `isStarknetChain` of rules.go: some network has the chain's identifier and the name "Starknet".
unfoldable pub is_starknet_chain : Networks → ℕ → Bool
is_starknet_chain [] chain_id = false
is_starknet_chain ((k, n) ∷ rest) chain_id =
    if (n.chain_id == chain_id) && str_eq n.name (str "Starknet")
    then true
    else is_starknet_chain rest chain_id

-- `FillInstructions[0].DestinationChainID.Uint64()`: a panic if there is no instruction.
unfoldable pub destination_chain : List FillInstruction → Result ℕ
destination_chain [] = panic index_out_of_range
destination_chain (i ∷ more) = ok (to_uint64 i.destination_chain_id)

module _ {Felt : Type 0} (g : Geth) (fs : Felts Felt) (bc : BalanceClients Felt)
    (networks : Networks) (getenv : Env) where
  -- The first element of the answer.
  unfoldable pub balance_of_answer : List Felt → M Felt ℕ
  balance_of_answer [] = fail "no response from balanceOf call"
  balance_of_answer (low ∷ more) = pure (fs.felt_to_big_int low)

  -- `starknetutil.ERC20Balance`
  unfoldable pub starknet_erc20_balance : GoString → GoString → M Felt ℕ
  unfolding balance_of_answer
  starknet_erc20_balance token owner = do
    token_felt ← wrapping "invalid token address" (lift (fs.hex_to_felt token))
    owner_felt ← wrapping "invalid owner address" (lift (fs.hex_to_felt owner))
    resp ←
        wrapping "failed to call balanceOf"
          (ask (starknet_balance token owner) (bc.call_starknet_balance token_felt owner_felt))
    balance_of_answer resp

  -- `ethutil.ERC20Balance`
  unfoldable pub evm_erc20_balance : Address → Address → M Felt ℕ
  evm_erc20_balance token owner = do
    wrapping "failed to parse ERC20 ABI" (lift bc.abi_json)
    wrapping "failed to pack balanceOf call" (lift bc.abi_pack)
    result ←
        wrapping "failed to call balanceOf"
          (ask (evm_balance token owner) (bc.call_evm_balance token owner))
    if length result == 0
        then fail "empty result from balanceOf call"
        else wrapping "failed to unpack balanceOf result" (lift (bc.unpack_balance result))

  -- What a round of either loop makes of the balance that it read: a result that ends the loop, or
  -- none.
  unfoldable pub compare_balance : Output → Result ℕ → Result (Option RuleResult)
  compare_balance o (ok balance) = ok (
      if ltb balance o.amount
      then some (reject (insufficient_balance o.token balance o.amount))
      else none)
  compare_balance o (err e) = ok (some (reject (balance_check_failed o.token e)))
  compare_balance o (panic p) = panic p

  unfoldable pub check_starknet_output : GoString → Output → M Felt (Option RuleResult)
  unfolding compare_balance
  check_starknet_output solver o =
      if str_eq o.token [] || str_eq o.token (str "0x0") then pure none else do
        balance ← attempt (starknet_erc20_balance o.token solver)
        lift (compare_balance o balance)

  -- The balance at a token whose address was converted.
  unfoldable pub check_evm_token : Address → Output → Result Address → M Felt (Option RuleResult)
  unfolding compare_balance
  check_evm_token solver o (ok token) = do
    balance ← attempt (evm_erc20_balance token solver)
    lift (compare_balance o balance)
  check_evm_token solver o (err e) = pure (some (reject (token_conversion_failed o.token e)))
  check_evm_token solver o (panic p) = lift (panic p)

  unfoldable pub check_evm_output : Address → Output → M Felt (Option RuleResult)
  unfolding check_evm_token
  check_evm_output solver o =
      if str_eq o.token [] then pure none else check_evm_token solver o (to_evm_address g o.token)

  -- The loop over `MaxSpent`, which the first result of a round ends.
  unfoldable pub check_outputs :
      (Output → M Felt (Option RuleResult)) → RuleResult → List Output → M Felt RuleResult
  check_outputs check passed [] = pure passed
  check_outputs check passed (o ∷ rest) =
      check o >>= elim [ none ↦ check_outputs check passed rest | some r ↦ pure r ]

  -- The test of the connection's error.
  unfoldable pub if_connected : Result (Unit {0}) → M Felt RuleResult → M Felt RuleResult
  if_connected (ok c) m = m
  if_connected (err e) m = pure (reject (connection_failed e))
  if_connected (panic p) m = lift (panic p)

  unfoldable pub check_starknet_balance : ParsedArgs → M Felt RuleResult
  unfolding check_outputs if_connected
  check_starknet_balance args =
      let solver = get_starknet_solver_address getenv in
      let url = get_starknet_rpc_url getenv in
      if str_eq solver []
      then pure (reject address_not_set)
      else if str_eq url []
      then pure (reject rpc_url_not_set)
      else if_connected (bc.new_provider url) (
          check_outputs (check_starknet_output solver) (pass starknet_balance_passed)
            args.resolved_order.max_spent)

  unfoldable pub check_evm_balance_at :
      Address → ParsedArgs → Option (GoString × NetworkConfig) → M Felt RuleResult
  unfolding check_outputs if_connected
  check_evm_balance_at solver args none = pure (reject no_network_config)
  check_evm_balance_at solver args (some (k, n)) = if_connected (bc.dial n.rpc_url) (
      check_outputs (check_evm_output solver) (pass evm_balance_passed)
        args.resolved_order.max_spent)

  unfoldable pub check_evm_balance : ParsedArgs → M Felt RuleResult
  unfolding check_evm_balance_at
  check_evm_balance args =
      let solver = get_solver_public_key getenv in
      if str_eq solver [] then pure (reject address_not_set) else do
        chain ← lift (destination_chain args.resolved_order.fill_instructions)
        check_evm_balance_at (g.hex_to_address solver) args (by_chain_id chain networks)

  unfoldable pub evaluate_balance_of : ParsedArgs → List Output → M Felt RuleResult
  evaluate_balance_of args [] = pure (pass no_tokens_to_spend)
  evaluate_balance_of args (o ∷ more) = do
    chain ← lift (destination_chain args.resolved_order.fill_instructions)
    if is_starknet_chain networks chain then check_starknet_balance args else check_evm_balance args

  unfoldable pub evaluate_balance : ParsedArgs → M Felt RuleResult
  unfolding evaluate_balance_of
  evaluate_balance args = evaluate_balance_of args args.resolved_order.max_spent
