-- ===== src/Solver/Monad.antt =====
-- The state of `Hyperlane7683Solver` that its methods change, and the state monad that they run in:
-- the handlers that the solver keeps, beside what was asked of the chains.
use Prim.Native.String.{String}
use oif_starknet.Prelude.{ℕ, List, Option}
use oif_starknet.Prelude.Result.{Result, ok, err, panic, errorf, wrap}
use oif_starknet.Chain.{M, State}
use oif_starknet.Handler.{ChainHandler}

pub record Solver (Felt : Type 0) : Type 0 where
  -- `evmHandlers`, from chain identifiers to handlers
  pub evm_handlers : List (ℕ × ChainHandler Felt)
  pub hyperlane_starknet : Option (ChainHandler Felt)

abbrev pub Both : Type 0 → Type 0
Both Felt = Solver Felt × State Felt

abbrev pub S : Type 0 → Type 0 → Type 0
S Felt A = Both Felt → Result A × Both Felt

module _ {Felt A : Type 0} where
  unfoldable pub return : A → S Felt A
  return a s = (ok a, s)

  unfoldable pub refuse : String → S Felt A
  refuse text s = (err (errorf text), s)

  -- An action on the chains leaves the handlers as they are.
  unfoldable pub run : M Felt A → S Felt A
  run m (f, s) = let (r, t) = m s in (r, (f, t))

  pub wrap_result : String → Result A × Both Felt → Result A × Both Felt
  wrap_result text (ok a, s) = (ok a, s)
  wrap_result text (err e, s) = (err (wrap text e), s)
  wrap_result text (panic p, s) = (panic p, s)

  -- `if err != nil { return fmt.Errorf("…: %w", err) }`
  unfoldable pub wrapped : String → S Felt A → S Felt A
  unfolding wrap_result
  wrapped text m s = wrap_result text (m s)

module _ {Felt A B : Type 0} where
  unfoldable pub go_on : Result A → (A → S Felt B) → S Felt B
  go_on (ok a) f s = f a s
  go_on (err e) f s = (err e, s)
  go_on (panic p) f s = (panic p, s)

  infixl 10 ◌>>=◌ ◌>>◌
  unfoldable pub ◌>>=◌ : S Felt A → (A → S Felt B) → S Felt B
  unfolding go_on
  ◌>>=◌ m f s = let (r, t) = m s in go_on r f t

  unfoldable pub ◌>>◌ : S Felt A → S Felt B → S Felt B
  unfolding ◌>>=◌
  m >> k = m >>= λ _. k
