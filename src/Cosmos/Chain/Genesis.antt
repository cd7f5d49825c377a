-- ===== src/Cosmos/Chain/Genesis.antt =====
-- The genesis file of the nodes of a chain, from the point where it is written until they all run.
use interchaintest.Base.{
  String, ◌≡◌, refl, inl, inr, false, none, some, List, [], ◌∷◌, Bool-cases, ◌==◌, nat_eq,
  string_eq,
}
use interchaintest.Base.Actions.{Ended, Action, done, fails, panics, blocks, continue, prefixed}
use interchaintest.Base.Keeping.{
  Keeps, OnDone, continue-Keeps, prefixed-Keeps, prefixed-OnDone, Keeps-OnDone,
}
use interchaintest.Ibc.Config.{ChainConfig}
use interchaintest.Dockerutil.{read_file, write_file, Host, Docker, ask, tell}
use interchaintest.Dockerutil.Written.{
  written, last_written, Holds, ask-Keeps, write-Keeps, write-OnDone,
}
use interchaintest.Testutil.Toml.{Table, modify_toml_config_file, recursive_modify_toml}
use interchaintest.Cosmos.{Packages, ChainNode}
use interchaintest.Cosmos.Exec.{read_node_file, write_node_file, node_id}
use interchaintest.Cosmos.Files.{
  genesis_file, genesis_file_content, overwrite_genesis_file, peers_config, set_peers, peer_step,
  peer_addresses, peer_string, log_genesis_hashes,
}
use interchaintest.Cosmos.Chain.{for_each}

module _ (packages : Packages) (docker : Docker) (cfg : ChainConfig) (g : String) where
  module _ (v : String) where
    abbrev pub HasGenesis : Host → Type 0
    HasGenesis = Holds docker v genesis_file g

    -- Another file is written.
    written_other :
        (w p content : String)
        → (p == genesis_file) ≡ false
        → written v genesis_file (write_file w p content) ≡ none
    written_other w p content e = elim (Bool-cases (w == v)) [
      | inl f ↦ rw (f, e) refl
      | inr f ↦ rw f refl
    ]

    modify_toml_config_file-Keeps :
        (w p : String) (t : Table)
        → (p == genesis_file) ≡ false
        → Keeps HasGenesis (modify_toml_config_file docker packages.toml w p t)
    unfolding modify_toml_config_file
    modify_toml_config_file-Keeps w p t e h k =
        continue-Keeps HasGenesis (prefixed _ (ask docker (read_file w p) docker.text h)) _
          (prefixed-Keeps HasGenesis _ (ask docker (read_file w p) docker.text h)
            (ask-Keeps docker v genesis_file g _ docker.text refl h k))
          (λ config h1 k1.
            continue-Keeps HasGenesis (prefixed _ (packages.toml.unmarshal config, h1)) _
              (prefixed-Keeps HasGenesis _ (packages.toml.unmarshal config, h1) k1)
              (λ c h2 k2.
                continue-Keeps HasGenesis (prefixed _ (recursive_modify_toml c t, h2)) _
                  (prefixed-Keeps HasGenesis _ (recursive_modify_toml c t, h2) k2)
                  (λ m h3 k3.
                    continue-Keeps HasGenesis (prefixed _ (packages.toml.encode m, h3)) _
                      (prefixed-Keeps HasGenesis _ (packages.toml.encode m, h3) k3)
                      (λ content h4 k4.
                        prefixed-Keeps HasGenesis _ (tell docker (write_file w p content) h4) (
                          ask-Keeps docker v genesis_file g _ (λ _ _. tt)
                            (written_other w p content e) h4 k4)))))

    pub set_peers-Keeps :
        (tn : ChainNode) (peers : String)
        → Keeps HasGenesis (set_peers packages docker cfg tn peers)
    unfolding set_peers
    set_peers-Keeps tn peers =
        modify_toml_config_file-Keeps tn.volume_name "config/config.toml"
          (peers_config packages docker cfg peers) refl

    read_node_file-Keeps :
        (tn : ChainNode) (p : String) → Keeps HasGenesis (read_node_file packages docker cfg tn p)
    unfolding read_node_file
    read_node_file-Keeps tn p h k =
        prefixed-Keeps HasGenesis _ (ask docker (read_file tn.volume_name p) docker.text h)
          (ask-Keeps docker v genesis_file g _ docker.text refl h k)

    pub log_genesis_hashes-Keeps :
        (ns : List ChainNode) → Keeps HasGenesis (log_genesis_hashes packages docker cfg ns)
    unfolding log_genesis_hashes genesis_file_content
    log_genesis_hashes-Keeps [] h k = k
    log_genesis_hashes-Keeps (n ∷ ns) h k =
        continue-Keeps HasGenesis (genesis_file_content packages docker cfg n h) _
          (prefixed-Keeps HasGenesis _ (read_node_file packages docker cfg n genesis_file h)
            (read_node_file-Keeps n genesis_file h k))
          (λ c. log_genesis_hashes-Keeps ns)

    node_id-Keeps : (n : ChainNode) → Keeps HasGenesis (node_id packages docker cfg n)
    unfolding node_id
    node_id-Keeps n h k =
        continue-Keeps HasGenesis
          (prefixed _ (read_node_file packages docker cfg n "config/node_key.json" h)) _
          (prefixed-Keeps HasGenesis _
            (read_node_file packages docker cfg n "config/node_key.json" h)
            (read_node_file-Keeps n _ h k))
          (λ j h' k'. prefixed-Keeps HasGenesis _ (packages.node_id j, h') k')

    peer_addresses-Keeps :
        (ns : List ChainNode) → Keeps HasGenesis (peer_addresses packages docker cfg ns)
    unfolding peer_addresses
    peer_addresses-Keeps [] h k = k
    peer_addresses-Keeps (n ∷ ns) h k =
        step (node_id packages docker cfg n h) (peer_addresses packages docker cfg ns)
          (node_id-Keeps n h k) (peer_addresses-Keeps ns)
      where
        step :
            (x : Ended String × Host) (more : Action Host (List String))
            → HasGenesis x.1
            → Keeps HasGenesis more
            → HasGenesis (peer_step packages docker cfg ns n x more).1
        step (done id, s) more p q = continue-Keeps HasGenesis (more s) _ (q s p) (λ a t r. r)
        step (fails e, s) more p q = p
        step (panics, s) more p q = p
        step (blocks, s) more p q = p

    pub peer_string-Keeps :
        (ns : List ChainNode) → Keeps HasGenesis (peer_string packages docker cfg ns)
    unfolding peer_string
    peer_string-Keeps ns h k =
        continue-Keeps HasGenesis (peer_addresses packages docker cfg ns h) _
          (peer_addresses-Keeps ns h k) (λ a t r. r)

    overwrite_genesis_file-Keeps :
        (n : ChainNode) → Keeps HasGenesis (overwrite_genesis_file packages docker cfg g n)
    unfolding overwrite_genesis_file write_node_file
    overwrite_genesis_file-Keeps n h k =
        prefixed-Keeps HasGenesis _ (tell docker (write_file n.volume_name genesis_file g) h)
          (write-Keeps docker v genesis_file g n.volume_name h k)

    for_each-Keeps :
        (ns : List ChainNode)
        → Keeps HasGenesis (for_each (overwrite_genesis_file packages docker cfg g) ns)
    unfolding for_each
    for_each-Keeps [] h k = k
    for_each-Keeps (n ∷ ns) h k =
        continue-Keeps HasGenesis (overwrite_genesis_file packages docker cfg g n h) _
          (overwrite_genesis_file-Keeps n h k) (λ u. for_each-Keeps ns)

  abbrev pub volumes : List ChainNode → List String
  volumes [] = []
  volumes (n ∷ ns) = n.volume_name ∷ volumes ns

  -- The genesis was last written to each of these volumes.
  abbrev pub Held : List String → Host → Type 0
  Held [] h = Unit
  Held (v ∷ vs) h = (last_written v genesis_file h.calls ≡ some g) × Held vs h

  overwrite_genesis_file-OnDone :
      (n : ChainNode) (h : Host)
      → OnDone (HasGenesis n.volume_name) (overwrite_genesis_file packages docker cfg g n h)
  unfolding overwrite_genesis_file write_node_file
  overwrite_genesis_file-OnDone n h =
      prefixed-OnDone (HasGenesis n.volume_name) _
        (tell docker (write_file n.volume_name genesis_file g) h)
        (write-OnDone docker n.volume_name genesis_file g h)

  -- Every node is given the genesis.
  pub for_each-Held :
      (ns : List ChainNode) (h : Host)
      → OnDone (Held (volumes ns)) (for_each (overwrite_genesis_file packages docker cfg g) ns h)
  unfolding for_each
  for_each-Held [] h = tt
  for_each-Held (n ∷ ns) h =
      first (overwrite_genesis_file packages docker cfg g n h) (overwrite_genesis_file-OnDone n h)
        (for_each-Held ns)
    where
      together :
          (x : Ended (Unit {0}) × Host)
          → OnDone (HasGenesis n.volume_name) x
          → OnDone (Held (volumes ns)) x
          → OnDone (Held (volumes (n ∷ ns))) x
      together (done u, s) p q = (p, q)
      together (fails e, s) p q = tt
      together (panics, s) p q = tt
      together (blocks, s) p q = tt

      first :
          (x : Ended (Unit {0}) × Host)
          → OnDone (HasGenesis n.volume_name) x
          → ((s : Host)
              → OnDone
                  (Held (volumes ns))
                  (for_each (overwrite_genesis_file packages docker cfg g) ns s))
          → OnDone
              (Held (volumes (n ∷ ns)))
              (continue x (λ u. for_each (overwrite_genesis_file packages docker cfg g) ns))
      first (done u, s) p all =
          together (for_each (overwrite_genesis_file packages docker cfg g) ns s)
            (Keeps-OnDone (HasGenesis n.volume_name)
              (for_each (overwrite_genesis_file packages docker cfg g) ns s)
              (for_each-Keeps n.volume_name ns s p))
            (all s)
      first (fails e, s) p all = tt
      first (panics, s) p all = tt
      first (blocks, s) p all = tt
