-- ===== src/Examples/Persisted.antt =====
-- The persisted solver state, and the listeners that resume from it.
use Prim.Native.Nat.{max}
use oif_starknet.Prelude.{
  ℕ, ◌≡◌, ◌≤◌, refl, ap, sym, Bool, true, false, List, [], ◌∷◌, some, if◌then◌else◌,
}
use oif_starknet.Prelude.Int.{pos}
use oif_starknet.Prelude.Result.{Result, Error, ok, err, errorf}
use oif_starknet.Prelude.Text.{Bytes, GoString, str, str_eq, str_eq_iff}
use oif_starknet.Config.SolverState.{
  SolverNetworkState, SolverState, Os, Store, find_state, set_state, get_solver_state,
  update_last_indexed_block,
}
use oif_starknet.Config.SolverState.Saving.{Atomic}
use oif_starknet.Config.SolverState.Update.{
  KeepsNames, Marshals, update_last_indexed_block-Atomic, update_last_indexed_block-get,
}
use oif_starknet.Listener.Base.{ListenerConfig, resolve_solver_start_block}
use oif_starknet.Listener.Resume.{resolve_common_listener_config}
use oif_starknet.Listener.Resume.Laws.{
  resolve_common_listener_config_ok, resume-update_last_indexed_block,
}
use oif_starknet.Examples.Data.{networks}

-- A format for states with one network, of a given name: the block, and then the time.
abbrev one_name : GoString
one_name = str "Ethereum"

abbrev one_entry : ℕ → GoString → SolverState
one_entry block stamp = record {
  networks = (one_name, record { last_indexed_block = block; last_updated = stamp }) ∷ [];
}

abbrev marshal_entries : List (GoString × SolverNetworkState) → Result Bytes
marshal_entries [] = err (errorf "no network")
marshal_entries ((k, v) ∷ []) =
    if str_eq k one_name
    then ok (v.last_indexed_block ∷ v.last_updated)
    else err (errorf "other network")
marshal_entries (x ∷ y ∷ rest) = err (errorf "too many networks")

abbrev unmarshal : Bytes → Result SolverState
unmarshal [] = err (errorf "unexpected end")
unmarshal (block ∷ stamp) = ok (one_entry block stamp)

abbrev os : Os
os = record {
  mkdir_all = λ t. ok tt;
  create_temp = λ t. ok tt;
  write = λ t. ok tt;
  sync = λ t. ok tt;
  close = λ t. ok tt;
  rename = λ t. ok tt;
  read_file = λ t. ok tt;
  now = λ t. str "now";
  marshal = λ state. marshal_entries state.networks;
  unmarshal = unmarshal;
}

os-KeepsNames : KeepsNames os
os-KeepsNames state d h = by_entries state.networks h
  where
    Kept : List (GoString × SolverNetworkState) → Type 0
    Kept m =
        (c : ℕ) × (d' : Bytes) × (state' : SolverState) × (d ≡ c ∷ d')
        × (unmarshal d ≡ ok state')
        × ((name : GoString) → find_state name state'.networks ≡ find_state name m)

    never : {e : Error} → Path (Result Bytes) (err e) (ok d) → ⊥
    never q = cc

    by_test :
        (k : GoString) (v : SolverNetworkState) (b : Bool)
        → str_eq k one_name ≡ b
        → (if b then ok (v.last_indexed_block ∷ v.last_updated) else err (errorf "other network"))
          ≡ ok d
        → Kept ((k, v) ∷ [])
    by_test k v true e q =
        let bytes : d ≡ v.last_indexed_block ∷ v.last_updated = cc in
        (
          v.last_indexed_block,
          v.last_updated,
          one_entry v.last_indexed_block v.last_updated,
          bytes,
          rw bytes refl,
          λ name.
              ap (λ (n : GoString). find_state name ((n, v) ∷ []))
                (sym ((str_eq_iff k one_name).0 e)),
        )
    by_test k v false e q = absurd (never q)

    by_entries : (m : List (GoString × SolverNetworkState)) → marshal_entries m ≡ ok d → Kept m
    by_entries [] h = absurd (never h)
    by_entries ((k, v) ∷ []) h = by_test k v (str_eq k one_name) refl h
    by_entries (x ∷ y ∷ rest) h = absurd (never h)

abbrev before : Store
before = record { content = some (5 ∷ []); clock = 0 }

abbrev after : Store
after = (update_last_indexed_block os networks one_name 9 before).1

update_last_indexed_block-Atomic_example :
    Atomic
      (Marshals os networks 5 [] (one_entry 5 []) refl one_name 9)
      (some (5 ∷ []))
      (update_last_indexed_block os networks one_name 9 before)
update_last_indexed_block-Atomic_example =
    update_last_indexed_block-Atomic os networks 5 [] (one_entry 5 []) refl one_name 9 before refl

updates : update_last_indexed_block os networks one_name 9 before ≡ (ok tt, after)
unfolding update_last_indexed_block find_state set_state str_eq
updates = refl

update_last_indexed_block-get_example :
    (state' : SolverState) × (stamp : GoString) × ((get_solver_state os networks after).0
      ≡ ok state')
    × ((k : GoString)
        → find_state k state'.networks ≡ (
            if str_eq one_name k
            then some (record { last_indexed_block = 9; last_updated = stamp })
            else find_state k (one_entry 5 []).networks))
update_last_indexed_block-get_example =
    update_last_indexed_block-get os networks os-KeepsNames 5 [] (one_entry 5 []) one_name 9 before
      after refl refl updates refl

abbrev listener_config : ListenerConfig
listener_config = record {
  contract_address = str "0x1";
  chain_name = one_name;
  initial_block = pos 3;
  poll_interval = pos 1000;
  confirmation_blocks = 0;
  max_block_range = 10;
}

resumes_at_5 : resolve_common_listener_config listener_config (ok 30) (ok (one_entry 5 [])) ≡ ok 5
unfolding resolve_common_listener_config find_state str_eq
resumes_at_5 = refl

resolve_common_listener_config_example :
    (start_block : ℕ) × (solver_state : SolverState) × (network : SolverNetworkState)
    × (resolve_solver_start_block (pos 3) (ok 30) ≡ ok start_block)
    × (Path (Result SolverState) (ok (one_entry 5 [])) (ok solver_state))
    × (find_state one_name solver_state.networks ≡ some network)
    × (5 ≡ max start_block network.last_indexed_block)
resolve_common_listener_config_example =
    resolve_common_listener_config_ok listener_config (ok 30) (ok (one_entry 5 [])) 5 resumes_at_5

resumes_at_9 :
    resolve_common_listener_config listener_config (ok 30) (get_solver_state os networks after).0
    ≡ ok 9
unfolding resolve_common_listener_config find_state str_eq update_last_indexed_block
    get_solver_state set_state
resumes_at_9 = refl

resume_example : 9 ≤ 9
resume_example =
    resume-update_last_indexed_block os networks os-KeepsNames 5 [] (one_entry 5 []) listener_config
      9 9 (ok 30) before after refl refl updates refl resumes_at_9
