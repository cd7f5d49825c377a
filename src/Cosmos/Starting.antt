-- ===== src/Cosmos/Starting.antt =====
-- `CreateNodeContainer` and `StartContainer` of chain/cosmos/chain_node.go. The hook `preStartNode` is
-- a parameter, by reference, as are the clients that a started node is asked through.
use interchaintest.Base.{
  ℕ, suc, String, Bool, true, false, ◌&&◌, Option, none, some, List, [], ◌∷◌, ◌++◌, if◌then◌else◌,
  ◌==◌, Map, assign, ℤ, cat, join, pos, nat_eq, string_eq,
}
use interchaintest.Base.Actions.{
  Ended, Action, done, panics, ◌>>=◌, ◌>>◌, return, modify, gets, check,
}
use interchaintest.Ibc.Config.{Ref, ChainConfig, uses_comet_mock}
use interchaintest.Dockerutil.{Docker}
use interchaintest.Dockerutil.Ports.{PortMap}
use interchaintest.Dockerutil.Lifecycle.{new_container_lifecycle, Managed, create, start}
use interchaintest.Dockerutil.Inspecting.{get_host_ports}
use interchaintest.Cosmos.{
  Packages, SidecarProcess, ChainNode, show, show_int, comet_mock_raw_port, node_name,
  node_host_name, sidecar_host_name,
}
use interchaintest.Cosmos.Commands.{home_dir, bind}
use interchaintest.Cosmos.Exec.{ended}
use interchaintest.Cosmos.Containers.{
  Site, SidecarSite, on_sidecar, on_node, on_nth, start_sidecar, is_down,
}

abbrev pub rpc_port : String
rpc_port = "26657/tcp"

abbrev pub grpc_port : String
grpc_port = "9090/tcp"

abbrev pub api_port : String
api_port = "1317/tcp"

abbrev pub p2p_port : String
p2p_port = "26656/tcp"

abbrev pub node_ports : List String
node_ports = rpc_port ∷ grpc_port ∷ api_port ∷ p2p_port ∷ []

-- `sentryPorts`
abbrev pub sentry_ports : PortMap
sentry_ports =
    (p2p_port, []) ∷ (rpc_port, []) ∷ (grpc_port, []) ∷ (api_port, []) ∷ ("1234/tcp", []) ∷ []

-- The ports of `CreateNodeContainer`.
unfoldable pub with_ports : List String → PortMap → PortMap
with_ports [] m = m
with_ports (p ∷ ps) m = with_ports ps (assign p [] m)

unfoldable pub with_overrides : Map ℤ ℤ → PortMap → PortMap
with_overrides [] m = m
with_overrides ((int_p, ext_p) ∷ rest) m = with_overrides rest (
    assign (cat (show_int int_p) "/tcp") (record { host_ip = ""; host_port = show_int ext_p } ∷ [])
      m)

unfoldable pub using_ports : ChainConfig → ChainNode → PortMap
unfolding with_ports with_overrides
using_ports cfg tn =
    overridden cfg.host_port_override (with_ports cfg.expose_additional_ports sentry_ports)
  where
    overridden : Option (Map ℤ ℤ) → PortMap → PortMap
    overridden none m = m
    overridden (some o) m = if tn.validator && tn.index == 0 then with_overrides o m else m

-- `hostPorts[0]`
abbrev pub first_of : List String → Ended String
first_of [] = panics
first_of (p ∷ ps) = done p

-- The four ports of a started node.
abbrev pub set_host_ports : List String → ChainNode → Ended ChainNode
set_host_ports (rpc ∷ grpc ∷ api ∷ p2p ∷ ps) tn = done (record tn {
  host_rpc_port = rpc;
  host_grpc_port = grpc;
  host_api_port = api;
  host_p2p_port = p2p;
})
set_host_ports ps tn = panics

module _ (packages : Packages) (docker : Docker) (cfg : ChainConfig) where
  -- The start command of `CreateNodeContainer`; `%s` of a slice has brackets.
  unfoldable pub start_command : List String
  unfolding home_dir
  start_command =
      let home = home_dir packages cfg in
      let cmd = join "" (
        "cp -r " ∷ home ∷ " " ∷ home ∷ "_nomnt && " ∷ cfg.bin ∷ " start --home " ∷ home ∷ "_nomnt"
        ∷ []) in
      if cfg.no_host_mount
      then "sh" ∷ "-c" ∷ cat cmd (sliced cfg.additional_start_args) ∷ []
      else (cfg.bin ∷ "start" ∷ "--home" ∷ home ∷ []) ++ cfg.additional_start_args
    where
      sliced : List String → String
      sliced [] = ""
      sliced (a ∷ more) = cat " [" (cat (join " " (a ∷ more)) "]")

  -- The address and the flags of an application that CometMock calls, and the sidecar that runs it.
  abbrev pub abci_app_addr : ChainNode → String
  abci_app_addr tn = cat "tcp://" (cat (node_host_name cfg tn) ":26658")

  abbrev pub block_time_flag : ℤ → String
  block_time_flag (pos (suc n)) = cat "--block-time=" (show (suc n))
  block_time_flag b = "--block-time=100"

  unfoldable pub comet_mock : ChainNode → ℕ → SidecarProcess
  unfolding home_dir node_name node_host_name
  comet_mock tn n =
      let home = home_dir packages cfg in
      let container_name = cat "cometmock-" (cat (node_name cfg tn) (cat "-" (show n))) in
      record {
        index = tn.index;
        validator_process = true;
        pre_start = true;
        process_name = container_name;
        test_name = tn.test_name;
        volume_name = tn.volume_name;
        image = cfg.comet_mock.image;
        ports = comet_mock_raw_port ∷ [];
        start_cmd =
            "cometmock"
            ∷ block_time_flag cfg.comet_mock.block_time_ms
            ∷ abci_app_addr tn
            ∷ packages.path_join (home ∷ "config" ∷ "genesis.json" ∷ [])
            ∷ cat "tcp://0.0.0.0:" comet_mock_raw_port
            ∷ home
            ∷ "grpc"
            ∷ [];
        env = cfg.env;
        home_dir = home;
        container_lifecycle = new_container_lifecycle container_name;
      }

  -- The start command of a node, with the flags of its mock, and the call of CreateContainer.
  unfoldable pub own_command : ChainNode → List String
  unfolding uses_comet_mock start_command node_host_name
  own_command tn =
      let flags =
        "--with-tendermint=false" ∷ "--transport=grpc" ∷ cat "--address=" (abci_app_addr tn) ∷ [] in
      start_command ++ (if uses_comet_mock cfg then flags else [])

  unfoldable pub own_container : ChainNode → Action Managed (Unit {0})
  unfolding own_command using_ports bind node_host_name create
  own_container tn =
      create docker tn.image (using_ports cfg tn) (bind packages cfg tn) (node_host_name cfg tn)
        (own_command tn)

  unfoldable pub add_mock : Site → Site
  unfolding uses_comet_mock comet_mock
  add_mock s =
      let mock = comet_mock s.node (packages.random s.host.calls) ∷ [] in
      record s {
        node = record s.node {
          sidecars = s.node.sidecars ++ (if uses_comet_mock cfg then mock else []);
        };
      }

  -- `CreateNodeContainer`
  unfoldable pub create_node_container : Action Site (Unit {0})
  unfolding add_mock own_container
  create_node_container s = on_node (own_container s.node) (add_mock s)

  -- A sidecar before the node starts: the address of its port, if it is the CometMock.
  abbrev pub mock_address : Bool → Action SidecarSite (Option (String × String))
  mock_address false = return none
  mock_address true = do
    host_ports ← on_sidecar (get_host_ports docker (cat comet_mock_raw_port "/tcp" ∷ []))
    address ← ended (first_of host_ports)
    p ← gets (λ s. s.sidecar)
    return (some (address, sidecar_host_name cfg p))

  unfoldable pub prestart_sidecar : Action SidecarSite (Option (String × String))
  unfolding is_down start_sidecar get_host_ports sidecar_host_name
  prestart_sidecar = do
    down ← is_down docker cfg
    p ← gets (λ s. s.sidecar)
    if p.pre_start && down
        then (do
          start_sidecar docker cfg
          mock_address (p.image.repository == cfg.comet_mock.image.repository))
        else return none

  -- The last address stands.
  abbrev pub note : Option (String × String) → String → Action Site String
  note none address = return address
  note (some (address, name)) old = do
    modify (λ s. record s { node = record s.node { comet_hostname = name } })
    return address

  unfoldable pub prestart_sidecars : ℕ → List SidecarProcess → String → Action Site String
  unfolding prestart_sidecar
  prestart_sidecars i [] address s = (done address, s)
  prestart_sidecars i (p ∷ ps) address s =
      (do
        found ← on_nth i p prestart_sidecar
        address' ← note found address
        prestart_sidecars (suc i) ps address')
        s

  -- The end of `StartContainer`: the RPC port, and the clients.
  unfoldable pub connect : String → ChainNode → Action Site (Unit {0})
  unfolding node_name
  connect rpc_override_addr tn s =
      let rpc = if tn.comet_hostname == "" then tn.host_rpc_port else rpc_override_addr in
      (do
        check (packages.new_client (cat "tcp://" rpc) s.host.calls)
        check (packages.catching_up (node_name cfg tn) s.host.calls))
        (record s { node = record tn { host_rpc_port = rpc } })

  module _ (hook : Ref → Action Site (Unit {0})) where
    abbrev pub run_hook : Option Ref → Action Site (Unit {0})
    run_hook none = return tt
    run_hook (some r) = hook r

    -- `(*ChainNode).StartContainer`
    unfoldable pub start_container : Action Site (Unit {0})
    unfolding prestart_sidecars start get_host_ports connect
    start_container = do
      started ← gets (λ s. s.node)
      rpc_override_addr ← prestart_sidecars 0 started.sidecars ""
      run_hook started.pre_start_node
      on_node (start docker)
      host_ports ← on_node (get_host_ports docker node_ports)
      ported ← gets (λ s. s.node)
      tn ← ended (set_host_ports host_ports ported)
      connect rpc_override_addr tn
