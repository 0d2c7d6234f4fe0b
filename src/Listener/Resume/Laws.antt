-- ===== src/Listener/Resume/Laws.antt =====
-- Where a listener resumes.
use oif_starknet.Prelude.{
  ℕ, zero, suc, ◌≡◌, ◌≤◌, refl, ap, ◌∙◌, sym, Option, none, some, Bool, true, false, if◌then◌else◌,
  arith, ◌∷◌,
}
use Prim.Native.Nat.{max}
use oif_starknet.Prelude.Int.{ℤ, pos, negsuc}
use oif_starknet.Prelude.Result.{Result, ok, err, panic, wrapping, ◌>>=◌}
use oif_starknet.Prelude.Text.{Bytes, GoString, str_eq, str_eq_iff}
use oif_starknet.Config.Networks.{Networks}
use oif_starknet.Config.SolverState.{
  SolverNetworkState, SolverState, Os, Store, find_state, get_solver_state,
  update_last_indexed_block,
}
use oif_starknet.Config.SolverState.Update.{KeepsNames, update_last_indexed_block-get}
use oif_starknet.Listener.Base.{ListenerConfig, from_current, resolve_solver_start_block}
use oif_starknet.Listener.Resume.{resolved_start_block, later_block, resolve_common_listener_config}

-- The two functions that resolve a start block agree.
resolved_start_block_lem :
    (start : ℤ) (current : Result ℕ)
    → resolved_start_block start current ≡ resolve_solver_start_block start current
unfolding resolved_start_block resolve_solver_start_block from_current
resolved_start_block_lem (pos (suc n)) current = refl
resolved_start_block_lem (pos zero) (ok current) = refl
resolved_start_block_lem (pos zero) (err e) = refl
resolved_start_block_lem (pos zero) (panic p) = refl
resolved_start_block_lem (negsuc n) (ok current) = refl
resolved_start_block_lem (negsuc n) (err e) = refl
resolved_start_block_lem (negsuc n) (panic p) = refl

-- A listener that is set up resumes at the later one of its start block and the last block that
-- the solver state has for its network; the state has the network.
pub resolve_common_listener_config_ok :
    (c : ListenerConfig) (current : Result ℕ) (state : Result SolverState) (last : ℕ)
    → resolve_common_listener_config c current state ≡ ok last
    → (start_block : ℕ) × (solver_state : SolverState) × (network : SolverNetworkState)
      × (resolve_solver_start_block c.initial_block current ≡ ok start_block)
      × (state ≡ ok solver_state)
      × (find_state c.chain_name solver_state.networks ≡ some network)
      × (last ≡ max start_block network.last_indexed_block)
unfolding resolve_common_listener_config later_block
resolve_common_listener_config_ok c current state last h =
    by_start (resolved_start_block c.initial_block current) refl state refl h
  where
    Goal : Result SolverState → Type 0
    Goal st =
        (start_block : ℕ) × (solver_state : SolverState) × (network : SolverNetworkState)
        × (resolve_solver_start_block c.initial_block current ≡ ok start_block)
        × (st ≡ ok solver_state)
        × (find_state c.chain_name solver_state.networks ≡ some network)
        × (last ≡ max start_block network.last_indexed_block)

    by_network :
        (start_block : ℕ) (x : SolverState) (o : Option SolverNetworkState)
        → resolve_solver_start_block c.initial_block current ≡ ok start_block
        → find_state c.chain_name x.networks ≡ o
        → later_block start_block o ≡ ok last
        → Goal (ok x)
    by_network start_block x none resolved found k = cc
    by_network start_block x (some network) resolved found k =
        (start_block, x, network, resolved, refl, found, ground arith)

    by_start :
        (r : Result ℕ)
        → resolved_start_block c.initial_block current ≡ r
        → (st : Result SolverState) → state ≡ st
        → (r >>= λ start_block. wrapping "failed to get solver state" st >>= λ solver_state.
            later_block start_block (find_state c.chain_name solver_state.networks))
          ≡ ok last
        → Goal st
    by_start (ok start_block) e (ok x) q k =
        by_network start_block x _ (sym (resolved_start_block_lem c.initial_block current) ∙ e) refl
          k
    by_start (ok start_block) e (err x) q k = cc
    by_start (ok start_block) e (panic x) q k = cc
    by_start (err x) e st q k = cc
    by_start (panic x) e st q k = cc

-- Where the file holds a state and JSON keeps the state's values: once a block was recorded for a
-- network, a listener of that network that is set up from the file resumes at that block or a later
-- one, whatever its start block.
pub resume-update_last_indexed_block :
    (os : Os) (networks : Networks) (keeps : KeepsNames os) (b : ℕ) (d : Bytes)
    (state : SolverState) (c : ListenerConfig) (new_block last : ℕ) (current : Result ℕ)
    (s t : Store)
    → os.unmarshal (b ∷ d) ≡ ok state
    → s.content ≡ some (b ∷ d)
    → update_last_indexed_block os networks c.chain_name new_block s ≡ (ok tt, t)
    → os.read_file t.clock ≡ ok tt
    → resolve_common_listener_config c current (get_solver_state os networks t).0 ≡ ok last
    → new_block ≤ last
resume-update_last_indexed_block os networks keeps b d state c new_block last current s t readable
      has updates reads resumes =
    let (state', stamp, gets, names) =
      update_last_indexed_block-get os networks keeps b d state c.chain_name new_block s t readable
        has updates reads in
    let (start_block, x, network, resolved, same, found, later) =
      resolve_common_listener_config_ok c current (get_solver_state os networks t).0 last resumes in
    let recorded : network ≡ record { last_indexed_block = new_block; last_updated = stamp } =
      of_name x state' network stamp (cc) found (names c.chain_name) in
    let block : network.last_indexed_block ≡ new_block = ap (λ n. n.last_indexed_block) recorded in
    omega (arith, later, block)
  where
    chosen :
        (x state' : SolverState) (network : SolverNetworkState) (stamp : GoString) (t : Bool)
        → t ≡ true
        → x ≡ state'
        → find_state c.chain_name x.networks ≡ some network
        → find_state c.chain_name state'.networks ≡ (
            if t
            then some (record { last_indexed_block = new_block; last_updated = stamp })
            else find_state c.chain_name state.networks)
        → network ≡ record { last_indexed_block = new_block; last_updated = stamp }
    chosen x state' network stamp true q e found names = cc
    chosen x state' network stamp false q e found names = cc

    of_name :
        (x state' : SolverState) (network : SolverNetworkState) (stamp : GoString)
        → x ≡ state'
        → find_state c.chain_name x.networks ≡ some network
        → find_state c.chain_name state'.networks ≡ (
            if str_eq c.chain_name c.chain_name
            then some (record { last_indexed_block = new_block; last_updated = stamp })
            else find_state c.chain_name state.networks)
        → network ≡ record { last_indexed_block = new_block; last_updated = stamp }
    of_name x state' network stamp e found names =
        chosen x state' network stamp _ ((str_eq_iff c.chain_name c.chain_name).1 refl) e found
          names
