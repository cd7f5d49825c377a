-- ===== src/Cosmos/Chain/Kept.antt =====
-- The nodes of a chain keep their genesis file from the point where it is written: the steps of
-- `Start` that follow.
use interchaintest.Base.{
  ℕ, suc, String, ◌≡◌, refl, sym, ap, ◌∙◌, ◌&&◌, List, [], ◌∷◌, ◌++◌, nat_eq, string_eq,
}
use interchaintest.Base.Actions.{Action}
use interchaintest.Base.Keeping.{Keeps, continue-Keeps}
use interchaintest.Ibc.Config.{Ref, ChainConfig}
use interchaintest.Dockerutil.{Host, Docker}
use interchaintest.Cosmos.{Packages, SidecarProcess, ChainNode}
use interchaintest.Cosmos.Files.{set_peers, peer_string, log_genesis_hashes}
use interchaintest.Cosmos.Containers.{Site, is_down, on_host}
use interchaintest.Cosmos.Starting.{create_node_container}
use interchaintest.Cosmos.Chain.{
  CosmosChain, Hooks, each_node, each_sidecar, groups, on_chain, on_nodes, nodes, join_peers,
  prestart, prestart_sidecars, after_genesis,
}
use interchaintest.Cosmos.Chain.Genesis.{
  HasGenesis, volumes, set_peers-Keeps, log_genesis_hashes-Keeps, peer_string-Keeps,
}
use interchaintest.Cosmos.Chain.Launched.{
  HostHeld, SidecarHeld, SiteHeld, all-Held, start_sidecar-Keeps, is_down-Keeps, either-Keeps,
  create_node_container-Keeps, start_container-Keeps, on_host-Keeps,
}

-- What a node runs before it starts neither moves it to another volume nor takes from any volume the
-- genesis file that was last written there.
abbrev pub LeavesGenesis : Packages → Docker → ChainConfig → (Ref → Action Site (Unit {0})) → Type 0
LeavesGenesis packages docker cfg hook =
    (g : String) (vs : List String) (r : Ref) (w : String)
    → Keeps (SiteHeld packages docker cfg g vs w) (hook r)

module _ (packages : Packages) (docker : Docker) (hooks : Hooks) (cfg : ChainConfig)
    (leaves : LeavesGenesis packages docker cfg hooks.pre_start_node) where
  module _ (g : String) (vs : List String) where
    abbrev pub ChainHeld : CosmosChain → Type 0
    ChainHeld c =
        (volumes packages docker cfg g (nodes c) ≡ vs) × HostHeld packages docker cfg g vs c.host

    each_node-Held :
        (m : ℕ → Action Site (Unit {0}))
        → ((i : ℕ) (w : String) → Keeps (SiteHeld packages docker cfg g vs w) (m i))
        → (i : ℕ) (ns : List ChainNode) (h : Host) → HostHeld packages docker cfg g vs h
        → (volumes packages docker cfg g (each_node m i ns h).1 ≡ volumes packages docker cfg g ns)
          × HostHeld packages docker cfg g vs (each_node m i ns h).2
    unfolding each_node
    each_node-Held m k i [] h p = (refl, p)
    each_node-Held m k i (n ∷ ns) h p =
        let s : Site = record { node = n; host = h } in
        let (e, q) = k i n.volume_name s (refl, p) in
        let (f, r) = each_node-Held m k (suc i) ns (m i s).1.host q in (cc, r)

    volumes-append :
        (ms ns : List ChainNode)
        → volumes packages docker cfg g (ms ++ ns)
          ≡ volumes packages docker cfg g ms ++ volumes packages docker cfg g ns
    volumes-append [] ns = refl
    volumes-append (m ∷ ms) ns = ap (λ l. m.volume_name ∷ l) (volumes-append ms ns)

    groups-Keeps :
        (m n : ℕ → Action Site (Unit {0}))
        → ((i : ℕ) (w : String) → Keeps (SiteHeld packages docker cfg g vs w) (m i))
        → ((i : ℕ) (w : String) → Keeps (SiteHeld packages docker cfg g vs w) (n i))
        → Keeps ChainHeld (groups m n)
    unfolding groups
    groups-Keeps m n j k c (e, p) =
        let (f, q) = each_node-Held m j 0 c.validators c.host p in
        let (f', r) = each_node-Held n k 0 c.full_nodes (each_node m 0 c.validators c.host).2 q in
        (
          volumes-append _ _
              ∙ ap
                  (λ l.
                    l
                    ++ volumes packages docker cfg g
                        (each_node n 0 c.full_nodes (each_node m 0 c.validators c.host).2).1)
                  f
              ∙ ap (λ l. volumes packages docker cfg g c.validators ++ l) f'
              ∙ sym (volumes-append c.validators c.full_nodes)
              ∙ e,
          r,
        )

    on_nodes-Keeps :
        (m : Action Site (Unit {0}))
        → ((w : String) → Keeps (SiteHeld packages docker cfg g vs w) m)
        → Keeps ChainHeld (on_nodes m)
    on_nodes-Keeps m k = groups-Keeps (λ i. m) (λ i. m) (λ i. k) (λ i. k)

    on_chain-Keeps :
        {A : Type 0} (m : Action Host A)
        → ((v : String) → Keeps (HasGenesis packages docker cfg g v) m)
        → Keeps ChainHeld (on_chain m)
    on_chain-Keeps m k c (e, p) = (e, all-Held packages docker cfg g vs (λ h. h) m vs k c.host p)

    prestart-Keeps :
        Keeps (SidecarHeld packages docker cfg g vs) (prestart packages docker hooks cfg)
    unfolding prestart
    prestart-Keeps s h =
        continue-Keeps (SidecarHeld packages docker cfg g vs) (is_down docker cfg s) _
          (is_down-Keeps packages docker cfg g vs s h)
          (λ down t k.
            either-Keeps packages docker cfg g vs (SidecarHeld packages docker cfg g vs)
              (t.sidecar.pre_start && down) _ _ (start_sidecar-Keeps packages docker cfg g vs)
              (λ t k. k) t k)

    each_sidecar-Held :
        (ps : List SidecarProcess) (h : Host)
        → HostHeld packages docker cfg g vs h
        → HostHeld packages docker cfg g vs
            (each_sidecar (prestart packages docker hooks cfg) ps h).2
    unfolding each_sidecar
    each_sidecar-Held [] h p = p
    each_sidecar-Held (q ∷ ps) h p =
        each_sidecar-Held ps _ (prestart-Keeps (record { sidecar = q; host = h }) p)

    prestart_sidecars-Keeps : Keeps ChainHeld (prestart_sidecars packages docker hooks cfg)
    unfolding prestart_sidecars
    prestart_sidecars-Keeps c (e, p) = (e, each_sidecar-Held c.sidecars c.host p)

    join_peers-Keeps :
        (peers w : String)
        → Keeps (SiteHeld packages docker cfg g vs w) (join_peers packages docker hooks cfg peers)
    unfolding join_peers
    join_peers-Keeps peers w s h =
        continue-Keeps (SiteHeld packages docker cfg g vs w)
          (on_host (set_peers packages docker cfg s.node peers) s) _
          (on_host-Keeps packages docker cfg g vs w (set_peers packages docker cfg s.node peers)
            (λ v. set_peers-Keeps packages docker cfg g v s.node peers) s h)
          (λ u. start_container-Keeps packages docker cfg g vs hooks.pre_start_node (leaves g vs) w)

    -- From the genesis file on, the nodes keep it.
    pub launched-Keeps :
        (ns : List ChainNode) → Keeps ChainHeld (after_genesis packages docker hooks cfg ns)
    unfolding after_genesis
    launched-Keeps ns c h =
        continue-Keeps ChainHeld (on_chain (log_genesis_hashes packages docker cfg ns) c) _
          (on_chain-Keeps (log_genesis_hashes packages docker cfg ns)
            (λ v. log_genesis_hashes-Keeps packages docker cfg g v ns) c h)
          (λ u c1 h1.
            continue-Keeps ChainHeld (prestart_sidecars packages docker hooks cfg c1) _
              (prestart_sidecars-Keeps c1 h1)
              (λ u c2 h2.
                continue-Keeps ChainHeld (on_nodes (create_node_container packages docker cfg) c2) _
                  (on_nodes-Keeps (create_node_container packages docker cfg)
                    (create_node_container-Keeps packages docker cfg g vs) c2 h2)
                  (λ u c3 h3.
                    continue-Keeps ChainHeld
                      (on_chain (peer_string packages docker cfg (nodes c3)) c3) _
                      (on_chain-Keeps (peer_string packages docker cfg (nodes c3))
                        (λ v. peer_string-Keeps packages docker cfg g v (nodes c3)) c3 h3)
                      (λ peers.
                        on_nodes-Keeps (join_peers packages docker hooks cfg peers)
                          (join_peers-Keeps peers)))))
