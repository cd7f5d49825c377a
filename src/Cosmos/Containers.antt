-- ===== src/Cosmos/Containers.antt =====
-- The containers of a node and of its sidecars (chain/cosmos/chain_node.go and sidecar.go). The number
-- in the name of a CometMock sidecar is the one that `random` gives.
use interchaintest.Base.{
  ℕ, zero, suc, String, Bool, true, false, List, [], ◌∷◌, if◌then◌else◌, assign, cat, nat_eq,
  string_eq,
}
use interchaintest.Base.Actions.{Ended, Action, done, fails, panics, blocks, ◌>>◌, return}
use interchaintest.Ibc.Config.{ChainConfig}
use interchaintest.Dockerutil.{Host, Docker}
use interchaintest.Dockerutil.Ports.{PortBinding}
use interchaintest.Dockerutil.Lifecycle.{Managed, create, start, stop, remove, pause, unpause}
use interchaintest.Dockerutil.Inspecting.{running}
use interchaintest.Cosmos.{SidecarProcess, ChainNode, sidecar_host_name}

-- A node, or a sidecar, and the host that its methods call.
pub record Site : Type 0 where
  pub node : ChainNode
  pub host : Host

pub record SidecarSite : Type 0 where
  pub sidecar : SidecarProcess
  pub host : Host

-- A method of the container's lifecycle.
abbrev pub on_sidecar : {A : Type 0} → Action Managed A → Action SidecarSite A
on_sidecar m s =
    let (r, t) = m (record { lifecycle = s.sidecar.container_lifecycle; host = s.host }) in
    (r, record { sidecar = record s.sidecar { container_lifecycle = t.lifecycle }; host = t.host })

abbrev pub on_node : {A : Type 0} → Action Managed A → Action Site A
on_node m s =
    let (r, t) = m (record { lifecycle = s.node.container_lifecycle; host = s.host }) in
    (r, record { node = record s.node { container_lifecycle = t.lifecycle }; host = t.host })

abbrev pub on_host : {A : Type 0} → Action Host A → Action Site A
on_host m s = let (r, h) = m s.host in (r, record s { host = h })

-- The ports of a map without bindings.
unfoldable pub unbound : List String → List (String × List PortBinding)
unbound [] = []
unbound (p ∷ ps) = assign p [] (unbound ps)

-- `(err != nil)` of a call.
abbrev pub whether_fails : {S : Type 0} → Ended (Unit {0}) × S → Ended Bool × S
whether_fails (done u, s) = (done false, s)
whether_fails (fails e, s) = (done true, s)
whether_fails (panics, s) = (panics, s)
whether_fails (blocks, s) = (blocks, s)

abbrev pub when : {S : Type 0} → Bool → Action S (Unit {0}) → Action S (Unit {0})
when b m = if b then m else return tt

module _ (docker : Docker) (cfg : ChainConfig) where
  -- `(*SidecarProcess).CreateContainer`, and the call of it and of StartContainer.
  unfoldable pub sidecar_container : SidecarProcess → Action Managed (Unit {0})
  unfolding create sidecar_host_name unbound
  sidecar_container p =
      create docker p.image (unbound p.ports) (cat p.volume_name (cat ":" p.home_dir) ∷ [])
        (sidecar_host_name cfg p) p.start_cmd

  unfoldable pub create_sidecar : Action SidecarSite (Unit {0})
  unfolding sidecar_container
  create_sidecar s = on_sidecar (sidecar_container s.sidecar) s

  unfoldable pub start_sidecar : Action SidecarSite (Unit {0})
  unfolding create_sidecar start
  start_sidecar = do create_sidecar; on_sidecar (start docker)

  -- Whether the container of a sidecar does not run.
  unfoldable pub is_down : Action SidecarSite Bool
  unfolding running
  is_down s = whether_fails (on_sidecar (running docker) s)

-- The sidecar at an index is replaced.
unfoldable pub set_nth : ℕ → SidecarProcess → List SidecarProcess → List SidecarProcess
set_nth i p [] = []
set_nth zero p (q ∷ ps) = p ∷ ps
set_nth (suc i) p (q ∷ ps) = q ∷ set_nth i p ps

-- A method of the sidecar `p`, which stands at an index in the node's list.
abbrev pub on_nth : {A : Type 0} → ℕ → SidecarProcess → Action SidecarSite A → Action Site A
on_nth i p m s =
    let (r, t) = m (record { sidecar = p; host = s.host }) in
    (
      r,
      record {
        node = record s.node { sidecars = set_nth i t.sidecar s.node.sidecars };
        host = t.host;
      },
    )

-- A method of each sidecar in turn, up to the first error.
unfoldable pub each_sidecar :
    Action SidecarSite (Unit {0}) → ℕ → List SidecarProcess → Action Site (Unit {0})
unfolding set_nth
each_sidecar m i [] s = (done tt, s)
each_sidecar m i (p ∷ ps) s = (do on_nth i p m; each_sidecar m (suc i) ps) s

-- A method of the containers of a node's sidecars, then of its own: `StopContainer`, `RemoveContainer`,
-- `PauseContainer` and `UnpauseContainer` differ in the method only.
unfoldable pub all_containers : Action Managed (Unit {0}) → Action Site (Unit {0})
unfolding each_sidecar
all_containers m s = (do each_sidecar (on_sidecar m) 0 s.node.sidecars; on_node m) s

unfoldable pub stop_container : Docker → Action Site (Unit {0})
unfolding all_containers stop
stop_container docker = all_containers (stop docker)

unfoldable pub remove_container : Docker → Action Site (Unit {0})
unfolding all_containers remove
remove_container docker = all_containers (remove docker)

unfoldable pub pause_container : Docker → Action Site (Unit {0})
unfolding all_containers pause
pause_container docker = all_containers (pause docker)

unfoldable pub unpause_container : Docker → Action Site (Unit {0})
unfolding all_containers unpause
unpause_container docker = all_containers (unpause docker)
