-- ===== src/SolverManager/Clients.antt =====
-- After the clients were set up, the solver finds one for every EVM network.
use oif_starknet.Prelude.{
  ℕ, ◌≡◌, ◌⊎◌, inl, inr, refl, ap, sym, true, false, List, [], ◌∷◌, Option, none, some, ◌==◌, arith,
  Bool-cases, if_cases,
}
use mathlib.Core.Path.{subst}
use oif_starknet.Prelude.Result.{Result, ok, err, panic}
use oif_starknet.Prelude.BigInt.{to_uint64}
use oif_starknet.Prelude.Text.{GoString}
use oif_starknet.EnvUtil.{Env}
use oif_starknet.Types.Address.{Geth}
use oif_starknet.Config.Networks.{NetworkConfig, Networks, by_chain_id, find_network}
use oif_starknet.Config.Networks.Lookup.{Entry, In, find_network-some}
use oif_starknet.StarknetUtil.{Felts}
use oif_starknet.Solver.Process.{is_evm_chain, is_evm_name}
use oif_starknet.SolverManager.{
  SolverManager, Dials, Nodes, is_starknet_network, find_client, get_evm_client, dial_all,
  after_dial, initialize_evm_clients,
}

-- There is a client with an identifier.
abbrev pub HasClient : {Client : Type 0} → ℕ → List (ℕ × Client) → Type 0
HasClient id clients = (c : _) × (find_client id clients ≡ some c)

HasClient-cons :
    {Client : Type 0} (id k : ℕ) (c : Client) (clients : List (ℕ × Client))
    → HasClient id clients
    → HasClient id ((k, c) ∷ clients)
unfolding find_client
HasClient-cons id k c clients (c', h) = elim (Bool-cases (k == id)) [
  | inl e ↦ (c, rw e refl)
  | inr e ↦ (c', rw e h)
]

HasClient-here :
    {Client : Type 0} (id : ℕ) (c : Client) (clients : List (ℕ × Client))
    → HasClient id ((id, c) ∷ clients)
unfolding find_client
HasClient-here id c clients = (c, ground arith)

-- What the solver takes for an EVM chain is the identifier of a network that is not Starknet's.
is_evm_chain-In :
    (networks : Networks) (chain_id : ℕ)
    → is_evm_chain networks chain_id ≡ true
    → (e : Entry) × In e networks
      × (is_starknet_network e.0 ≡ false)
      × (e.1.chain_id ≡ to_uint64 chain_id)
unfolding is_evm_chain is_evm_name is_starknet_network by_chain_id
is_evm_chain-In networks chain_id evm =
    by_found (find_network (λ n. n.chain_id == to_uint64 chain_id) networks) refl evm
  where
    by_found :
        (o : Option Entry)
        → find_network (λ n. n.chain_id == to_uint64 chain_id) networks ≡ o
        → is_evm_name o ≡ true
        → (e : Entry) × In e networks
          × (is_starknet_network e.0 ≡ false)
          × (e.1.chain_id ≡ to_uint64 chain_id)
    by_found none found named = cc
    by_found (some (k, n)) found named =
        let (m, same) =
          find_network-some (λ n. n.chain_id == to_uint64 chain_id) networks (k, n) found in
        ((k, n), m, ground arith, ground arith)

module _ {Client Provider Key Signer Account Felt : Type 0}
    (d : Dials Client Provider Key Signer Account Felt) (g : Geth) (fs : Felts Felt) (getenv : Env)
    (nodes : Nodes) (networks : Networks) where
  abbrev Dialled : Networks → List (ℕ × Client) → Result (Unit {0}) × List (ℕ × Client) → Type 0
  Dialled l before (ok t, after) =
      ((id : ℕ) → HasClient id before → HasClient id after)
      × ((e : Entry) → In e l → is_starknet_network e.0 ≡ false → HasClient e.1.chain_id after)
  Dialled l before (err e, after) = Unit
  Dialled l before (panic p, after) = Unit

  -- A Starknet network adds no client.
  Dialled-skip :
      (name : GoString) (n : NetworkConfig) (rest : Networks) (clients : List (ℕ × Client))
      (r : Result (Unit {0}) × List (ℕ × Client))
      → is_starknet_network name ≡ true
      → Dialled rest clients r
      → Dialled ((name, n) ∷ rest) clients r
  Dialled-skip name n rest clients (ok t, after) q (keeps, has) = (keeps, each)
    where
      each :
          (e : Entry)
          → (e ≡ (name, n)) ⊎ In e rest
          → is_starknet_network e.0 ≡ false
          → HasClient e.1.chain_id after
      each e (inl p) f =
          let same : is_starknet_network e.0 ≡ is_starknet_network name =
            ap (λ x. is_starknet_network x.0) p in
          cc
      each e (inr m) f = has e m f
  Dialled-skip name n rest clients (err e, after) q h = tt
  Dialled-skip name n rest clients (panic p, after) q h = tt

  Dialled-add :
      (name : GoString) (n : NetworkConfig) (rest : Networks) (c : Client)
      (clients : List (ℕ × Client)) (r : Result (Unit {0}) × List (ℕ × Client))
      → Dialled rest ((n.chain_id, c) ∷ clients) r
      → Dialled ((name, n) ∷ rest) clients r
  Dialled-add name n rest c clients (ok t, after) (keeps, has) =
      (λ id h. keeps id (HasClient-cons id n.chain_id c clients h), each)
    where
      each :
          (e : Entry)
          → (e ≡ (name, n)) ⊎ In e rest
          → is_starknet_network e.0 ≡ false
          → HasClient e.1.chain_id after
      each e (inl p) f =
          subst (λ id. HasClient id after) (ap (λ (x : Entry). x.1.chain_id) (sym p))
            (keeps n.chain_id (HasClient-here n.chain_id c clients))
      each e (inr m) f = has e m f
  Dialled-add name n rest c clients (err e, after) h = tt
  Dialled-add name n rest c clients (panic p, after) h = tt

  dial_all-Dialled :
      (l : Networks) (clients : List (ℕ × Client))
      → Dialled l clients (dial_all d g fs getenv nodes networks l clients)
  unfolding dial_all after_dial
  dial_all-Dialled [] clients = (λ id h. h, λ e m. absurd m)
  dial_all-Dialled ((name, n) ∷ rest) clients =
      if_cases (Dialled ((name, n) ∷ rest) clients) (is_starknet_network name) _ _
        (λ q. Dialled-skip name n rest clients _ q (dial_all-Dialled rest clients))
        λ q. by_answer (d.dial n.rpc_url) λ c. dial_all-Dialled rest ((n.chain_id, c) ∷ clients)
    where
      by_answer :
          (r : Result Client)
          → ((c : Client)
              → Dialled rest
                  ((n.chain_id, c) ∷ clients)
                  (dial_all d g fs getenv nodes networks rest ((n.chain_id, c) ∷ clients)))
          → Dialled ((name, n) ∷ rest) clients (
              after_dial d g fs getenv nodes networks n.chain_id r
                (dial_all d g fs getenv nodes networks rest)
                clients)
      by_answer (ok c) h = Dialled-add name n rest c clients _ (h c)
      by_answer (err e) h = tt
      by_answer (panic p) h = tt

  -- Once the EVM clients were initialised without an error, there is a client for every chain that
  -- the solver takes for an EVM chain, in whichever order the networks are met.
  pub initialize_evm_clients-get_evm_client :
      (sm sm' : SolverManager Client Provider) (chain_id : ℕ)
      → initialize_evm_clients d g fs getenv nodes networks sm ≡ (ok tt, sm')
      → is_evm_chain networks chain_id ≡ true
      → (c : Client) × (get_evm_client sm' (to_uint64 chain_id) ≡ ok c)
  unfolding initialize_evm_clients get_evm_client
  initialize_evm_clients-get_evm_client sm sm' chain_id initialised evm =
      let (e, m, q, id) = is_evm_chain-In networks chain_id evm in
      let (c, found) =
        of_dialled e m q (dial_all d g fs getenv nodes networks networks sm.evm_clients)
          (dial_all-Dialled networks sm.evm_clients) (ap (λ x. x.0) initialised) in
      let clients =
        ap (λ (x : Result (Unit {0}) × SolverManager Client Provider). x.1.evm_clients)
          initialised in
      of_client c (
        subst (λ k. find_client k sm'.evm_clients ≡ some c) id
          (subst (λ l. find_client e.1.chain_id l ≡ some c) clients found))
    where
      of_dialled :
          (e : Entry)
          → In e networks
          → is_starknet_network e.0 ≡ false
          → (r : Result (Unit {0}) × List (ℕ × Client)) → Dialled networks sm.evm_clients r
          → r.0 ≡ ok tt
          → HasClient e.1.chain_id r.1
      of_dialled e m q (ok t, after) (keeps, has) p = has e m q
      of_dialled e m q (err x, after) h p = cc
      of_dialled e m q (panic x, after) h p = cc

      of_client :
          (c : Client)
          → find_client (to_uint64 chain_id) sm'.evm_clients ≡ some c
          → (c : Client) × (get_evm_client sm' (to_uint64 chain_id) ≡ ok c)
      of_client c found = (c, rw (get_evm_client, found) refl)
