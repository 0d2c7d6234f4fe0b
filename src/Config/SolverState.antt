-- ===== src/Config/SolverState.antt =====
-- solver/solvercore/config/solver_state.go: the file of the last indexed blocks. The state of the
-- model is what the file holds, and a clock that every call of the operating system moves on, so
-- that each call can fail on its own. A map is the list of its entries; the locks serialise the
-- functions, so each is one sequence of calls.
pub mod Saving
pub mod Update
use Prim.Native.String.{String}
use oif_starknet.Prelude.{
  ℕ, zero, suc, Bool, true, false, List, [], ◌∷◌, Option, none, some, if◌then◌else◌,
}
use oif_starknet.Prelude.Int.{ℤ, pos, negsuc}
use oif_starknet.Prelude.Result.{Result, Error, ok, err, panic, errorf, wrap}
use oif_starknet.Prelude.Text.{Bytes, GoString, str, str_eq}
use oif_starknet.Config.Networks.{NetworkConfig, Networks, lookup_network}

pub record SolverNetworkState : Type 0 where
  pub last_indexed_block : ℕ
  pub last_updated : GoString

pub record SolverState : Type 0 where
  pub networks : List (GoString × SolverNetworkState)

-- `state.Networks[name]`
unfoldable pub find_state :
    GoString → List (GoString × SolverNetworkState) → Option SolverNetworkState
find_state name [] = none
find_state name ((k, v) ∷ rest) =
    let others = find_state name rest in if str_eq k name then some v else others

-- `state.Networks[name] = network`, of a name that the map has.
unfoldable pub set_state :
    GoString
    → SolverNetworkState
    → List (GoString × SolverNetworkState)
    → List (GoString × SolverNetworkState)
set_state name network [] = []
set_state name network ((k, v) ∷ rest) =
    let others = set_state name network rest in
    if str_eq k name then (k, network) ∷ rest else (k, v) ∷ others

-- `resolveSolverStartBlock` of this package.
unfoldable pub start_or_zero : ℤ → ℕ
start_or_zero (pos n) = n
start_or_zero (negsuc n) = 0

-- The start block of a network; a missing one has the zero value.
unfoldable pub default_block : Option NetworkConfig → ℕ
unfolding start_or_zero
default_block none = 0
default_block (some n) = start_or_zero n.solver_start_block

unfoldable pub default_entry : Networks → GoString → GoString × SolverNetworkState
unfolding default_block
default_entry networks name = (
  name,
  record { last_indexed_block = default_block (lookup_network name networks); last_updated = [] },
)

-- `getDefaultSolverState`, of the networks that `InitializeNetworks` has set.
unfoldable pub get_default_solver_state : Networks → SolverState
unfolding default_entry
get_default_solver_state networks = record {
  networks =
      default_entry networks (str "Ethereum")
      ∷ default_entry networks (str "Optimism")
      ∷ default_entry networks (str "Arbitrum")
      ∷ default_entry networks (str "Base")
      ∷ default_entry networks (str "Starknet")
      ∷ [];
}

-- What the code calls of `os`, `time` and `encoding/json`.
pub record Os : Type 0 where
  pub mkdir_all : ℕ → Result (Unit {0})
  pub create_temp : ℕ → Result (Unit {0})
  pub write : ℕ → Result (Unit {0})
  pub sync : ℕ → Result (Unit {0})
  pub close : ℕ → Result (Unit {0})
  pub rename : ℕ → Result (Unit {0})
  pub read_file : ℕ → Result (Unit {0})
  pub now : ℕ → GoString
  pub marshal : SolverState → Result Bytes
  pub unmarshal : Bytes → Result SolverState

pub record Store : Type 0 where
  -- what `stateFile` holds, if it exists
  pub content : Option Bytes
  pub clock : ℕ

abbrev pub F : Type 0 → Type 0
F A = Store → Result A × Store

module _ {A : Type 0} where
  unfoldable pub give : A → F A
  give a s = (ok a, s)

  unfoldable pub fail : Error → F A
  fail e s = (err e, s)

  unfoldable pub after_call : String → Result A → Store → Result A × Store
  after_call text (ok a) s = (ok a, s)
  after_call text (err e) s = (err (wrap text e), s)
  after_call text (panic p) s = (panic p, s)

  -- A call that may fail, and the text that its error is wrapped in.
  unfoldable pub call : String → (ℕ → Result A) → F A
  unfolding after_call
  call text f s = after_call text (f s.clock) (record s { clock = suc s.clock })

  unfoldable pub wrapped : String → F A → F A
  unfolding after_call
  wrapped text m s = let (r, t) = m s in after_call text r t

module _ {A B : Type 0} where
  unfoldable pub after_ok : Result A → Store → (A → F B) → Result B × Store
  after_ok (ok a) s f = f a s
  after_ok (err e) s f = (err e, s)
  after_ok (panic p) s f = (panic p, s)

  infixl 10 ◌>>=◌ ◌>>◌
  unfoldable pub ◌>>=◌ : F A → (A → F B) → F B
  unfolding after_ok
  ◌>>=◌ m f s = let (r, t) = m s in after_ok r t f

  unfoldable pub ◌>>◌ : F A → F B → F B
  unfolding ◌>>=◌
  m >> k = m >>= λ _. k

-- `os.Rename` puts the new content in the file's place.
unfoldable pub replace_content : Bytes → F (Unit {0})
replace_content d s = (ok tt, record s { content = some d })

module _ (os : Os) (networks : Networks) where
  -- `saveSolverStateLocked`: only the last step touches the file.
  unfoldable pub save_solver_state : SolverState → F (Unit {0})
  unfolding call replace_content ◌>>◌ ◌>>=◌
  save_solver_state state = do
    call "failed to create solver state directory" os.mkdir_all
    d ← call "failed to marshal solver state" (λ t. os.marshal state)
    call "failed to create temp solver state file" os.create_temp
    call "failed to write temp solver state file" os.write
    call "failed to sync temp solver state file" os.sync
    call "failed to close temp solver state file" os.close
    call "failed to atomically replace solver state file" os.rename
    replace_content d

  unfoldable pub use_default : String → F SolverState
  unfolding save_solver_state give
  use_default text = do
    wrapped text (save_solver_state (get_default_solver_state networks))
    give (get_default_solver_state networks)

  unfoldable pub parsed_or : Result SolverState → F SolverState → F SolverState
  parsed_or (ok state) retry = give state
  parsed_or (err e) retry = retry
  parsed_or (panic p) retry = λ s. (panic p, s)

  -- What an attempt does with the bytes that it has read.
  unfoldable pub after_data : Bytes → F SolverState → F SolverState
  unfolding parsed_or use_default
  after_data [] retry = use_default "failed to create default solver state for empty file"
  after_data (c ∷ d) retry = parsed_or (os.unmarshal (c ∷ d)) retry

  unfoldable pub after_read :
      Option Bytes → Result (Unit {0}) → (Error → F SolverState) → F SolverState → F SolverState
  unfolding after_data
  after_read none r read_error retry = read_error (errorf "no such file")
  after_read (some d) (ok t) read_error retry = after_data d retry
  after_read (some d) (err e) read_error retry = read_error e
  after_read (some d) (panic p) read_error retry = λ s. (panic p, s)

  unfoldable pub read_attempt : (Error → F SolverState) → F SolverState → F SolverState
  unfolding after_read
  read_attempt read_error retry s =
      after_read s.content (os.read_file s.clock) read_error retry
        (record s { clock = suc s.clock })

  -- The last attempt, and a number of attempts before it.
  unfoldable pub read_attempts : ℕ → F SolverState
  unfolding read_attempt
  read_attempts zero =
      read_attempt (λ e. fail (wrap "failed to read solver state file" e))
        (use_default "failed to create default solver state for corrupted file")
  read_attempts (suc n) = let next = read_attempts n in read_attempt (λ e. next) next

  -- `readSolverStateLocked`
  unfoldable pub read_existing : Option Bytes → F SolverState
  unfolding read_attempts
  read_existing none = use_default "failed to create default solver state file"
  read_existing (some d) = read_attempts 2

  unfoldable pub get_solver_state : F SolverState
  unfolding read_existing
  get_solver_state s = read_existing s.content s

  unfoldable pub updated : GoString → ℕ → SolverState → Option SolverNetworkState → F (Unit {0})
  unfolding save_solver_state
  updated name new_block state none = fail (errorf "network not found in solver state")
  updated name new_block state (some network) = λ s.
      wrapped "failed to save solver state"
        (save_solver_state (record state {
          networks =
              set_state name
                (record { last_indexed_block = new_block; last_updated = os.now s.clock })
                state.networks;
        }))
        s

  -- `UpdateLastIndexedBlock`
  unfoldable pub update_last_indexed_block : GoString → ℕ → F (Unit {0})
  unfolding updated wrapped get_solver_state
  update_last_indexed_block name new_block = do
    state ← wrapped "failed to get solver state" get_solver_state
    updated name new_block state (find_state name state.networks)
