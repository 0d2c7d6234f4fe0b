-- ===== src/Config/SolverState/Update.antt =====
-- Updating the last indexed block of a network.
use oif_starknet.Prelude.{
  ℕ, zero, suc, ◌≡◌, refl, ap, ◌∙◌, List, [], ◌∷◌, Option, none, some, arith, if◌then◌else◌,
}
use mathlib.Core.Path.{subst}
use oif_starknet.Prelude.Result.{Result, Error, ok, err, panic}
use oif_starknet.Prelude.Text.{Bytes, GoString, str_eq, str_eq_iff}
use oif_starknet.Config.Networks.{Networks}
use oif_starknet.Config.SolverState.{
  SolverNetworkState, SolverState, Os, Store, F, find_state, set_state, save_solver_state,
  get_solver_state, read_existing, read_attempts, read_attempt, after_read, after_data, parsed_or,
  give, fail, wrapped, after_call, after_ok, ◌>>=◌, updated, update_last_indexed_block,
}
use oif_starknet.Config.SolverState.Saving.{Atomic, save_solver_state-Atomic}

-- The state with a network's block set.
abbrev pub with_block : GoString → ℕ → GoString → SolverState → SolverState
with_block name new_block stamp state = record state {
  networks =
      set_state name (record { last_indexed_block = new_block; last_updated = stamp })
        state.networks;
}

-- An outcome that leaves the file, and whose value, if there is one, is this state.
abbrev pub Finds : SolverState → Option Bytes → Result SolverState × Store → Type 0
Finds state before (ok x, t) = (x ≡ state) × (t.content ≡ before)
Finds state before (err e, t) = t.content ≡ before
Finds state before (panic p, t) = t.content ≡ before

Atomic-after_call :
    (P : Bytes → Type 0) (before : Option Bytes) (text : _) (r : Result (Unit {0}) × Store)
    → Atomic P before r
    → Atomic P before (after_call text r.0 r.1)
unfolding after_call
Atomic-after_call P before text (ok a, t) h = h
Atomic-after_call P before text (err e, t) h = h
Atomic-after_call P before text (panic p, t) h = h

Finds-after_call :
    (state : SolverState) (before : Option Bytes) (text : _) (r : Result SolverState × Store)
    → Finds state before r
    → Finds state before (after_call text r.0 r.1)
unfolding after_call
Finds-after_call state before text (ok a, t) h = h
Finds-after_call state before text (err e, t) h = h
Finds-after_call state before text (panic p, t) h = h

module _ (os : Os) (networks : Networks) (c : ℕ) (d : Bytes) (state : SolverState)
    (readable : os.unmarshal (c ∷ d) ≡ ok state) where
  read_attempt-Finds :
      (read_error : Error → F SolverState) (retry : F SolverState) (s : Store)
      → s.content ≡ some (c ∷ d)
      → ((e : Error) (t : Store)
          → t.content ≡ some (c ∷ d)
          → Finds state (some (c ∷ d)) (read_error e t))
      → Finds state (some (c ∷ d)) (read_attempt os networks read_error retry s)
  unfolding read_attempt after_read after_data parsed_or give
  read_attempt-Finds read_error retry s has h = by_content s.content has
    where
      next : Store
      next = record s { clock = suc s.clock }

      by_read :
          (r : Result (Unit {0}))
          → Finds state
              (some (c ∷ d))
              (after_read os networks (some (c ∷ d)) r read_error retry next)
      by_read (ok t) = rw readable (refl, has)
      by_read (err e) = h e next has
      by_read (panic p) = has

      by_content :
          (o : Option Bytes)
          → o ≡ some (c ∷ d)
          → Finds state
              (some (c ∷ d))
              (after_read os networks o (os.read_file s.clock) read_error retry next)
      by_content o e = rw e (by_read (os.read_file s.clock))

  read_attempts-Finds :
      (n : ℕ) (s : Store)
      → s.content ≡ some (c ∷ d)
      → Finds state (some (c ∷ d)) (read_attempts os networks n s)
  unfolding read_attempts fail
  read_attempts-Finds zero s has = read_attempt-Finds _ _ s has λ e t same. same
  read_attempts-Finds (suc n) s has =
      read_attempt-Finds _ _ s has λ e t same. read_attempts-Finds n t same

  get_solver_state-Finds :
      (s : Store)
      → s.content ≡ some (c ∷ d)
      → Finds state (some (c ∷ d)) (get_solver_state os networks s)
  unfolding get_solver_state read_existing
  get_solver_state-Finds s has = by_content s.content has
    where
      by_content :
          (o : Option Bytes)
          → o ≡ some (c ∷ d)
          → Finds state (some (c ∷ d)) (read_existing os networks o s)
      by_content o e = rw e (read_attempts-Finds 2 s has)

  -- The bytes of the state with the network's block set; the state has the network.
  abbrev pub Marshals : GoString → ℕ → Bytes → Type 0
  Marshals name new_block d' =
      (network : SolverNetworkState) × (stamp : GoString) × (find_state name state.networks
        ≡ some network)
      × (os.marshal (with_block name new_block stamp state) ≡ ok d')

  updated-Atomic :
      (name : GoString) (new_block : ℕ) (s : Store) (before : Option Bytes)
      → s.content ≡ before
      → Atomic
          (Marshals name new_block)
          before
          (updated os networks name new_block state (find_state name state.networks) s)
  unfolding updated fail wrapped
  updated-Atomic name new_block s before same = by_found (find_state name state.networks) refl
    where
      stamp : GoString
      stamp = os.now s.clock

      saved : Result (Unit {0}) × Store
      saved = save_solver_state os networks (with_block name new_block stamp state) s

      marshals :
          (network : SolverNetworkState)
          → find_state name state.networks ≡ some network
          → (r : Result (Unit {0}) × Store)
          → Atomic (λ d'. os.marshal (with_block name new_block stamp state) ≡ ok d') s.content r
          → Atomic (Marshals name new_block) before r
      marshals network found (ok a, t) (d', m, has) = (d', (network, stamp, found, m), has)
      marshals network found (err e, t) h = h ∙ same
      marshals network found (panic p, t) h = h ∙ same

      by_found :
          (o : Option SolverNetworkState)
          → find_state name state.networks ≡ o
          → Atomic (Marshals name new_block) before (updated os networks name new_block state o s)
      by_found none found = same
      by_found (some network) found = Atomic-after_call (Marshals name new_block) before _ saved (
          marshals network found saved
            (save_solver_state-Atomic os networks (with_block name new_block stamp state) s))

  -- Where the file holds a state: an update that succeeds puts that state in the file, with the
  -- network's block set, and an update that fails, whichever call it fails at, leaves the file.
  pub update_last_indexed_block-Atomic :
      (name : GoString) (new_block : ℕ) (s : Store)
      → s.content ≡ some (c ∷ d)
      → Atomic
          (Marshals name new_block)
          (some (c ∷ d))
          (update_last_indexed_block os networks name new_block s)
  unfolding update_last_indexed_block ◌>>=◌ after_ok wrapped
  update_last_indexed_block-Atomic name new_block s has =
      by_state _ (Finds-after_call state (some (c ∷ d)) _ _ (get_solver_state-Finds s has))
    where
      by_state :
          (r : Result SolverState × Store)
          → Finds state (some (c ∷ d)) r
          → Atomic (Marshals name new_block) (some (c ∷ d)) (
              after_ok r.0 r.1
                λ x. updated os networks name new_block x (find_state name x.networks))
      by_state (ok x, t) (e, h) = rw e (updated-Atomic name new_block t (some (c ∷ d)) h)
      by_state (err e, t) h = h
      by_state (panic p, t) h = h

-- A map with a name's value set.
find_state-set_state :
    (name k : GoString) (v w : SolverNetworkState) (m : List (GoString × SolverNetworkState))
    → find_state name m ≡ some w
    → find_state k (set_state name v m) ≡ (if str_eq name k then some v else find_state k m)
unfolding find_state set_state
find_state-set_state name k v w [] found = cc
find_state-set_state name k v w ((j, x) ∷ m) found =
    let others = find_state-set_state name k v w m in
    ground (arith, str_eq_iff j name, str_eq_iff j k, str_eq_iff name k, others)

-- What reading and writing of JSON keeps: the bytes are not empty, and what is read back has the
-- value of every name.
abbrev pub KeepsNames : Os → Type 0
KeepsNames os =
    (state : SolverState) (d : Bytes)
    → os.marshal state ≡ ok d
    → (c : ℕ) × (d' : Bytes) × (state' : SolverState) × (d ≡ c ∷ d')
      × (os.unmarshal d ≡ ok state')
      × ((name : GoString) → find_state name state'.networks ≡ find_state name state.networks)

-- A first attempt that succeeds gives what the file holds.
get_solver_state-read :
    (os : Os) (networks : Networks) (c : ℕ) (d : Bytes) (state : SolverState) (s : Store)
    → s.content ≡ some (c ∷ d)
    → os.unmarshal (c ∷ d) ≡ ok state
    → os.read_file s.clock ≡ ok tt
    → (get_solver_state os networks s).0 ≡ ok state
unfolding get_solver_state read_existing read_attempts read_attempt after_read after_data parsed_or
    give
get_solver_state-read os networks c d state s has readable reads = by_content s.content has
  where
    by_content :
        (o : Option Bytes) → o ≡ some (c ∷ d) → (read_existing os networks o s).0 ≡ ok state
    by_content o e = rw (e, has, reads, readable) refl

-- Where the file holds a state and JSON keeps the state's values: after an update that succeeded,
-- reading the file gives a state that has the new block for the network, and for every other name
-- what the state had before.
pub update_last_indexed_block-get :
    (os : Os) (networks : Networks) (keeps : KeepsNames os) (c : ℕ) (d : Bytes)
    (state : SolverState) (name : GoString) (new_block : ℕ) (s t : Store)
    → os.unmarshal (c ∷ d) ≡ ok state
    → s.content ≡ some (c ∷ d)
    → update_last_indexed_block os networks name new_block s ≡ (ok tt, t)
    → os.read_file t.clock ≡ ok tt
    → (state' : SolverState) × (stamp : GoString) × ((get_solver_state os networks t).0 ≡ ok state')
      × ((k : GoString)
          → find_state k state'.networks ≡ (
              if str_eq name k
              then some (record { last_indexed_block = new_block; last_updated = stamp })
              else find_state k state.networks))
update_last_indexed_block-get os networks keeps c d state name new_block s t readable has updates
      reads =
    by_atomic (
      subst (Atomic (Marshals os networks c d state readable name new_block) (some (c ∷ d))) updates
        (update_last_indexed_block-Atomic os networks c d state readable name new_block s has))
  where
    Goal : Type 0
    Goal =
        (state' : SolverState) × (stamp : GoString) × ((get_solver_state os networks t).0
          ≡ ok state')
        × ((k : GoString)
            → find_state k state'.networks ≡ (
                if str_eq name k
                then some (record { last_indexed_block = new_block; last_updated = stamp })
                else find_state k state.networks))

    by_atomic :
        (d' : Bytes) × Marshals os networks c d state readable name new_block d'
          × (t.content ≡ some d')
        → Goal
    by_atomic (d', (network, stamp, found, m), has') =
        let (c2, d2, state', q, r, same) = keeps (with_block name new_block stamp state) d' m in
        (
          state',
          stamp,
          get_solver_state-read os networks c2 d2 state' t (has' ∙ ap (λ x. some x) q)
              (subst (λ x. os.unmarshal x ≡ ok state') q r) reads,
          λ k. same k ∙ find_state-set_state name k _ network state.networks found,
        )
