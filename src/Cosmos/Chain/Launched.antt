-- ===== src/Cosmos/Chain/Launched.antt =====
-- The nodes of a chain that has been started: the genesis file that each was given.
use interchaintest.Base.{
  ℕ, suc, String, ◌≡◌, Bool, true, false, ◌&&◌, Option, none, some, List, [], ◌∷◌, if◌then◌else◌,
  ◌==◌, cat, nat_eq, string_eq,
}
use interchaintest.Base.Actions.{Ended, Action, done, fails, panics, blocks, continue, check}
use interchaintest.Base.Keeping.{Keeps, continue-Keeps}
use interchaintest.Ibc.Config.{Ref, ChainConfig}
use interchaintest.Dockerutil.{Host, Docker}
use interchaintest.Dockerutil.Lifecycle.{Managed, start}
use interchaintest.Dockerutil.Inspecting.{running, get_host_ports}
use interchaintest.Dockerutil.Written.{
  ManagedHolds, create-Keeps, start-Keeps, get_host_ports-Keeps, running-Keeps,
}
use interchaintest.Cosmos.{
  Packages, SidecarProcess, ChainNode, node_name, node_host_name, sidecar_host_name,
}
use interchaintest.Cosmos.Commands.{bind}
use interchaintest.Cosmos.Files.{genesis_file}
use interchaintest.Cosmos.Containers.{
  Site, SidecarSite, on_sidecar, on_node, on_host, on_nth, unbound, whether_fails,
  sidecar_container, create_sidecar, start_sidecar, is_down,
}
use interchaintest.Cosmos.Starting.{
  mock_address, first_of, node_ports, set_host_ports, connect, note, prestart_sidecar,
  prestart_sidecars, using_ports, own_command, own_container, add_mock, create_node_container,
  run_hook, start_container,
}
use interchaintest.Cosmos.Chain.Genesis.{HasGenesis, Held}

module _ (packages : Packages) (docker : Docker) (cfg : ChainConfig) (g : String)
    (vs : List String) where
  abbrev pub HostHeld : Host → Type 0
  HostHeld = Held packages docker cfg g vs

  abbrev pub SidecarHeld : SidecarSite → Type 0
  SidecarHeld s = HostHeld s.host

  -- The node keeps its volume too.
  abbrev pub SiteHeld : String → Site → Type 0
  SiteHeld w s = (s.node.volume_name ≡ w) × HostHeld s.host

  pub all-Held :
      {S A : Type 0} (host_of : S → Host) (m : Action S A) (us : List String)
      → ((v : String) → Keeps (λ s. HasGenesis packages docker cfg g v (host_of s)) m)
      → (s : S) → Held packages docker cfg g us (host_of s)
      → Held packages docker cfg g us (host_of (m s).1)
  all-Held host_of m [] k s h = tt
  all-Held host_of m (v ∷ us) k s (p, h) = (k v s p, all-Held host_of m us k s h)

  pub on_host-Keeps :
      {A : Type 0} (w : String) (m : Action Host A)
      → ((v : String) → Keeps (HasGenesis packages docker cfg g v) m)
      → Keeps (SiteHeld w) (on_host m)
  on_host-Keeps w m k s (e, h) = (e, all-Held (λ h. h) m vs k s.host h)

  on_node-Keeps :
      {A : Type 0} (w : String) (m : Action Managed A)
      → ((v : String) → Keeps (ManagedHolds docker v genesis_file g) m)
      → Keeps (SiteHeld w) (on_node m)
  on_node-Keeps w m k s (e, h) = (
    e,
    all-Held (λ (t : Managed). t.host) m vs k
        (record { lifecycle = s.node.container_lifecycle; host = s.host }) h,
  )

  on_sidecar-Keeps :
      {A : Type 0} (m : Action Managed A)
      → ((v : String) → Keeps (ManagedHolds docker v genesis_file g) m)
      → Keeps SidecarHeld (on_sidecar m)
  on_sidecar-Keeps m k s h =
      all-Held (λ (t : Managed). t.host) m vs k
        (record { lifecycle = s.sidecar.container_lifecycle; host = s.host }) h

  on_nth-Keeps :
      {A : Type 0} (w : String) (i : ℕ) (p : SidecarProcess) (m : Action SidecarSite A)
      → Keeps SidecarHeld m
      → Keeps (SiteHeld w) (on_nth i p m)
  on_nth-Keeps w i p m k s (e, h) = (e, k (record { sidecar = p; host = s.host }) h)

  sidecar_container-Keeps :
      (p : SidecarProcess) (v : String)
      → Keeps (ManagedHolds docker v genesis_file g) (sidecar_container docker cfg p)
  unfolding sidecar_container
  sidecar_container-Keeps p v =
      create-Keeps docker v genesis_file g p.image (unbound p.ports)
        (cat p.volume_name (cat ":" p.home_dir) ∷ []) (sidecar_host_name cfg p) p.start_cmd

  pub start_sidecar-Keeps : Keeps SidecarHeld (start_sidecar docker cfg)
  unfolding start_sidecar create_sidecar
  start_sidecar-Keeps s h =
      continue-Keeps SidecarHeld (create_sidecar docker cfg s) _
        (on_sidecar-Keeps (sidecar_container docker cfg s.sidecar)
          (sidecar_container-Keeps s.sidecar) s h)
        (λ u. on_sidecar-Keeps (start docker) (λ v. start-Keeps docker v genesis_file g))

  whether_fails-Keeps :
      (x : Ended (Unit {0}) × SidecarSite) → SidecarHeld x.1 → SidecarHeld (whether_fails x).1
  whether_fails-Keeps (done u, s) p = p
  whether_fails-Keeps (fails e, s) p = p
  whether_fails-Keeps (panics, s) p = p
  whether_fails-Keeps (blocks, s) p = p

  pub is_down-Keeps : Keeps SidecarHeld (is_down docker cfg)
  unfolding is_down
  is_down-Keeps s h =
      whether_fails-Keeps (on_sidecar (running docker) s)
        (on_sidecar-Keeps (running docker) (λ v. running-Keeps docker v genesis_file g) s h)

  -- A test decides between two actions that keep.
  pub either-Keeps :
      {S A : Type 0} (P : S → Type 0) (b : Bool) (m n : Action S A)
      → Keeps P m
      → Keeps P n
      → Keeps P (if b then m else n)
  either-Keeps P true m n j k = j
  either-Keeps P false m n j k = k

  mock_address-Keeps : (b : Bool) → Keeps SidecarHeld (mock_address packages docker cfg b)
  mock_address-Keeps false s h = h
  mock_address-Keeps true s h =
      continue-Keeps SidecarHeld (on_sidecar (get_host_ports docker _) s) _
        (on_sidecar-Keeps (get_host_ports docker _)
          (λ v. get_host_ports-Keeps docker v genesis_file g _) s h)
        (λ ps s' h'. continue-Keeps SidecarHeld (first_of ps, s') _ h' (λ a t k. k))

  prestart_sidecar-Keeps : Keeps SidecarHeld (prestart_sidecar packages docker cfg)
  unfolding prestart_sidecar
  prestart_sidecar-Keeps s h =
      continue-Keeps SidecarHeld (is_down docker cfg s) _ (is_down-Keeps s h) (λ down t k.
        either-Keeps SidecarHeld (t.sidecar.pre_start && down) _ _
          (λ t k.
            continue-Keeps SidecarHeld (start_sidecar docker cfg t) _ (start_sidecar-Keeps t k)
              (λ u. mock_address-Keeps _))
          (λ t k. k) t k)

  note-Keeps :
      (w : String) (o : Option (String × String)) (a : String)
      → Keeps (SiteHeld w) (note packages docker cfg o a)
  note-Keeps w none a s h = h
  note-Keeps w (some (b, n)) a s h = h

  prestart_sidecars-Keeps :
      (w : String) (i : ℕ) (ps : List SidecarProcess) (a : String)
      → Keeps (SiteHeld w) (prestart_sidecars packages docker cfg i ps a)
  unfolding prestart_sidecars
  prestart_sidecars-Keeps w i [] a s h = h
  prestart_sidecars-Keeps w i (p ∷ ps) a s h =
      continue-Keeps (SiteHeld w) (on_nth i p (prestart_sidecar packages docker cfg) s) _
        (on_nth-Keeps w i p (prestart_sidecar packages docker cfg) prestart_sidecar-Keeps s h)
        (λ o t k.
          continue-Keeps (SiteHeld w) (note packages docker cfg o a t) _ (note-Keeps w o a t k)
            (λ a'. prestart_sidecars-Keeps w (suc i) ps a'))

  own_container-Keeps :
      (n : ChainNode) (v : String)
      → Keeps (ManagedHolds docker v genesis_file g) (own_container packages docker cfg n)
  unfolding own_container
  own_container-Keeps n v =
      create-Keeps docker v genesis_file g n.image (using_ports cfg n) (bind packages cfg n)
        (node_host_name cfg n) (own_command packages docker cfg n)

  pub create_node_container-Keeps :
      (w : String) → Keeps (SiteHeld w) (create_node_container packages docker cfg)
  unfolding create_node_container add_mock
  create_node_container-Keeps w s h =
      on_node-Keeps w (own_container packages docker cfg s.node) (own_container-Keeps s.node)
        (add_mock packages docker cfg s) h

  module _ (hook : Ref → Action Site (Unit {0}))
      (hook_keeps : (r : Ref) (w : String) → Keeps (SiteHeld w) (hook r)) where
    run_hook-Keeps :
        (w : String) (o : Option Ref) → Keeps (SiteHeld w) (run_hook packages docker cfg hook o)
    run_hook-Keeps w none s h = h
    run_hook-Keeps w (some r) s h = hook_keeps r w s h

    set_host_ports-Keeps :
        (w : String) (ps : List String) (s : Site)
        → SiteHeld w s
        → (f : ChainNode → Action Site (Unit {0}))
        → ((tn : ChainNode)
            → tn.volume_name ≡ w
            → (t : Site) → HostHeld t.host
            → SiteHeld w (f tn t).1)
        → SiteHeld w (continue (set_host_ports ps s.node, s) f).1
    set_host_ports-Keeps w (a ∷ b ∷ c ∷ d ∷ ps) s (e, h) f k = k _ e s h
    set_host_ports-Keeps w (a ∷ b ∷ c ∷ []) s h f k = h
    set_host_ports-Keeps w (a ∷ b ∷ []) s h f k = h
    set_host_ports-Keeps w (a ∷ []) s h f k = h
    set_host_ports-Keeps w [] s h f k = h

    check-Keeps : {S : Type 0} (P : S → Type 0) (o : Option String) → Keeps P (check o)
    check-Keeps P none s h = h
    check-Keeps P (some e) s h = h

    connect-Keeps :
        (w address : String) (tn : ChainNode)
        → tn.volume_name ≡ w
        → (s : Site) → HostHeld s.host
        → SiteHeld w (connect packages docker cfg address tn s).1
    unfolding connect
    connect-Keeps w address tn e s h =
        let rpc = if tn.comet_hostname == "" then tn.host_rpc_port else address in
        let t : Site = record s { node = record tn { host_rpc_port = rpc } } in
        continue-Keeps (SiteHeld w) {A = Unit {0}} {B = Unit {0}}
          (check (packages.new_client (cat "tcp://" rpc) s.host.calls) t) _
          (check-Keeps (SiteHeld w) (packages.new_client (cat "tcp://" rpc) s.host.calls) t (e, h))
          (λ u. check-Keeps (SiteHeld w) (packages.catching_up (node_name cfg tn) s.host.calls))

    pub start_container-Keeps :
        (w : String) → Keeps (SiteHeld w) (start_container packages docker cfg hook)
    unfolding start_container
    start_container-Keeps w s h =
        continue-Keeps (SiteHeld w) (prestart_sidecars packages docker cfg 0 s.node.sidecars "" s) _
          (prestart_sidecars-Keeps w 0 s.node.sidecars "" s h)
          (λ address s1 h1.
            continue-Keeps (SiteHeld w) (run_hook packages docker cfg hook s.node.pre_start_node s1)
              _ (run_hook-Keeps w s.node.pre_start_node s1 h1)
              (λ u s2 h2.
                continue-Keeps (SiteHeld w) (on_node (start docker) s2) _
                  (on_node-Keeps w (start docker) (λ v. start-Keeps docker v genesis_file g) s2 h2)
                  (λ u s3 h3.
                    continue-Keeps (SiteHeld w) {B = Unit {0}}
                      (on_node (get_host_ports docker node_ports) s3) _
                      (on_node-Keeps w (get_host_ports docker node_ports)
                        (λ v. get_host_ports-Keeps docker v genesis_file g node_ports) s3 h3)
                      (λ ps s4 h4. set_host_ports-Keeps w ps s4 h4 _ (connect-Keeps w address)))))
