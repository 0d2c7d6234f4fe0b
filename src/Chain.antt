-- ===== src/Chain.antt =====
-- What the chain handlers ask of the chains, and the state monad that their methods run in. Every
-- call of a client, of a signer and of the clock is a request; the handler's state holds the
-- requests made so far, the latest first. The answers are functions of those requests, so that an
-- answer may depend on all that was asked and sent before it.
pub mod Emits
use Prim.Native.String.{String}
use oif_starknet.Prelude.{
  ℕ, ◌≡◌, refl, Bool, true, false, List, [], ◌∷◌, Option, none, some, if◌then◌else◌,
}
use oif_starknet.Prelude.Result.{
  Result, ok, err, panic, Error, Panic, wrap, errorf, nil_dereference,
}
use oif_starknet.Prelude.BigInt.{to_uint64}
use oif_starknet.Prelude.Text.{Bytes, GoString}
use oif_starknet.Types.Address.{Address}

pub data Request (Felt : Type 0) : Type 0 where
  -- `orderStatus(orderId)` of the contract at an address
  evm_order_status : Address → Bytes → Request Felt
  -- `allowance(signer, spender)` of a token
  evm_allowance : Address → Address → Request Felt
  evm_balance : Address → Address → Request Felt
  evm_nonce evm_gas_price evm_chain_id : Request Felt
  -- `approve(spender, amount)` of a token: signed, and sent
  evm_sign_approve : Address → Address → ℕ → Request Felt
  evm_send_approve : Address → Address → ℕ → Request Felt
  evm_bind : Address → Request Felt
  -- `fill(orderId, originData, "")` of the contract at an address, with a value
  evm_fill : Address → Bytes → Bytes → Option ℕ → Request Felt
  evm_quote_gas : Address → ℕ → Request Felt
  -- `settle([orderId])` of the contract at an address, with a value
  evm_settle : Address → Bytes → Option ℕ → Request Felt
  evm_wait_mined : Request Felt
  -- `order_status(low, high)` of the contract at an address
  starknet_order_status : Felt → Felt → Felt → Request Felt
  -- `allowance(solver, spender)` of a token
  starknet_allowance : Felt → Felt → Request Felt
  starknet_balance : GoString → GoString → Request Felt
  starknet_quote_gas : Felt → ℕ → Request Felt
  -- an invoke transaction: contract, function, call data
  starknet_invoke : Felt → String → List Felt → Request Felt
  starknet_wait_receipt : Request Felt
  -- a pause, in milliseconds; `select` with `ctx.Done()` ends it early
  pause : ℕ → Request Felt

abbrev pub History : Type 0 → Type 0
History Felt = List (Request Felt)

pub record State (Felt : Type 0) : Type 0 where
  -- `h.signer.Value`
  pub signer_value : Option ℕ
  pub history : History Felt

abbrev pub M : Type 0 → Type 0 → Type 0
M Felt A = State Felt → Result A × State Felt

module _ {Felt A : Type 0} where
  unfoldable pub pure : A → M Felt A
  pure a s = (ok a, s)

  unfoldable pub fail : String → M Felt A
  fail text s = (err (errorf text), s)

  unfoldable pub lift : Result A → M Felt A
  lift r s = (r, s)

  -- Make a request, and take the answer.
  unfoldable pub ask : Request Felt → (History Felt → Result A) → M Felt A
  ask q answer s = (answer s.history, record s { history = q ∷ s.history })

  wrap_answer : String → Result A × State Felt → Result A × State Felt
  wrap_answer text (ok a, s) = (ok a, s)
  wrap_answer text (err e, s) = (err (wrap text e), s)
  wrap_answer text (panic p, s) = (panic p, s)

  -- `if err != nil { return fmt.Errorf("…: %w", err) }`
  unfoldable pub wrapping : String → M Felt A → M Felt A
  unfolding wrap_answer
  wrapping text m s = wrap_answer text (m s)

  catch_answer : Result A × State Felt → Result (Result A) × State Felt
  catch_answer (ok a, s) = (ok (ok a), s)
  catch_answer (err e, s) = (ok (err e), s)
  catch_answer (panic p, s) = (panic p, s)

  -- A call whose error the caller looks at.
  unfoldable pub attempt : M Felt A → M Felt (Result A)
  unfolding catch_answer
  attempt m s = catch_answer (m s)

  -- `h.signer.Value = value; defer func() { h.signer.Value = originalValue }()`
  unfoldable pub with_signer_value : Option ℕ → M Felt A → M Felt A
  with_signer_value value m s =
      let (r, t) = m (record s { signer_value = value }) in
      (r, record t { signer_value = s.signer_value })

module _ {Felt A B : Type 0} where
  unfoldable pub continue : Result A → (A → M Felt B) → M Felt B
  continue (ok a) f s = f a s
  continue (err e) f s = (err e, s)
  continue (panic p) f s = (panic p, s)

  infixl 10 ◌>>=◌ ◌>>◌
  unfoldable pub ◌>>=◌ : M Felt A → (A → M Felt B) → M Felt B
  unfolding continue
  ◌>>=◌ m f s = let (r, t) = m s in continue r f t

  unfoldable pub ◌>>◌ : M Felt A → M Felt B → M Felt B
  unfolding ◌>>=◌
  m >> k = m >>= λ _. k

-- `x.Uint64()`, where `x` may be nil.
unfoldable pub uint64_of : {Felt : Type 0} → Option ℕ → M Felt ℕ
unfolding lift
uint64_of none = lift (panic nil_dereference)
uint64_of (some x) = lift (ok (to_uint64 x))

module _ {Felt : Type 0} where
  -- The value that a transaction is sent with.
  unfoldable pub signer_value : M Felt (Option ℕ)
  signer_value s = (ok s.signer_value, s)
