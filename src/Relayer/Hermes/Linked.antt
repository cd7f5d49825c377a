-- ===== src/Relayer/Hermes/Linked.antt =====
-- The clients of a path of the hermes relayer.
use interchaintest.Base.{String, ◌≡◌, ap, ◌∙◌, some, lookup, string_eq}
use interchaintest.Base.Actions.{Action, done, continue, ◌>>=◌, ◌>>◌}
use interchaintest.Ibc.Channel.{CreateClientOptions}
use interchaintest.Dockerutil.{Docker}
use interchaintest.Relayer.Types.{RelayerCommander}
use interchaintest.Relayer.Hermes.{PathConfiguration, Hermes, write_path, finally, unlock_chains}
use interchaintest.Relayer.Hermes.Methods.{set_a, set_b, Formats, new_client, create_clients}
use interchaintest.Relayer.Hermes.Keeping.{locks_of, AreFree}
use interchaintest.Relayer.Hermes.Locks.{held, IsReady}
use interchaintest.Relayer.Hermes.Renamed.{with_path-ready, assigned}

module _ (docker : Docker) (c : RelayerCommander) (formats : Formats) where
  -- The relayer once the client of the path's first end is made.
  abbrev pub first_made :
      String → CreateClientOptions → String → PathConfiguration → Hermes → Hermes
  first_made name opts a p h =
      (write_path name (set_a (λ e. record e { client_id = a }) p)
        (new_client docker c formats p.chain_a.chain_id p.chain_b.chain_id opts (held p h)).1).1

  -- CreateClients on a ready path, where hermes makes a client on the first chain and then one on the
  -- second, succeeds, and the path holds the IDs of both, each at its own end, and is otherwise as it
  -- was.
  pub create_clients_lem :
      (name a b : String) (opts : CreateClientOptions) (p : PathConfiguration) (h : Hermes)
      → AreFree (locks_of h)
      → lookup name h.paths ≡ some p
      → IsReady p (locks_of h)
      → (new_client docker c formats p.chain_a.chain_id p.chain_b.chain_id opts (held p h)).0
        ≡ done a
      → (new_client docker c formats p.chain_b.chain_id p.chain_a.chain_id opts
          (first_made name opts a p h)).0
        ≡ done b
      → ((create_clients docker c formats name opts h).0 ≡ done tt)
        × (lookup name (create_clients docker c formats name opts h).1.paths
            ≡ some (
                set_b
                  (λ e. record e { client_id = b })
                  (set_a (λ e. record e { client_id = a }) p)))
  unfolding create_clients
  create_clients_lem name a b opts p h f e ready made_a made_b =
      let client : String → String → Action Hermes String =
        λ host reference. new_client docker c formats host reference opts in
      let second : String → String → Action Hermes (Unit {0}) = λ x y.
        write_path name
          (set_b (λ e. record e { client_id = y }) (set_a (λ e. record e { client_id = x }) p)) in
      let first : String → Action Hermes (Unit {0}) = (λ x. do
        write_path name (set_a (λ e. record e { client_id = x }) p)
        y ← client p.chain_b.chain_id p.chain_a.chain_id
        second x y) in
      let s1 : Hermes = (client p.chain_a.chain_id p.chain_b.chain_id (held p h)).1 in
      let s2 : Hermes =
        (client p.chain_b.chain_id p.chain_a.chain_id (first_made name opts a p h)).1 in
      let step =
        with_path-ready name _ p h f e ready
        ∙ ap (λ x. finally (unlock_chains p) (continue (x, s1) first)) made_a
        ∙ ap (λ x. finally (unlock_chains p) (continue (x, s2) (second a))) made_b in
      (ap (λ x. x.0) step, ap (λ x. lookup name x.1.paths) step ∙ assigned name _ s2.paths)
