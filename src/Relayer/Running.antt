-- ===== src/Relayer/Running.antt =====
-- The life of a `DockerRelayer` (relayer/docker.go): its creation, and the container that StartRelayer
-- leaves running until StopRelayer. The random end of the container's name is an argument.
use interchaintest.Base.{
  String, true, Option, none, some, List, [], ◌∷◌, ◌++◌, if◌then◌else◌, cat, join, string_eq,
}
use interchaintest.Base.Actions.{
  Ended, Action, done, fails, panics, blocks, continue, ◌>>=◌, ◌>>◌, return, errorf, panic, modify,
  gets,
}
use interchaintest.Ibc.Image.{ref}
use interchaintest.Dockerutil.{
  create_volume, set_volume_owner, inspect_container, container_logs, read_logs, pause_container,
  unpause_container, pull_image, Host, Docker, ask, tell,
}
use interchaintest.Dockerutil.Lifecycle.{
  ContainerLifecycle, new_container_lifecycle, Managed, wrapped, create, start, stop, remove,
}
use interchaintest.Relayer.Types.{RelayerCommander, DockerRelayer, RelayerOpt, apply_all}
use interchaintest.Relayer.Docker.{on_host, ended, container_image, bind, host_name, exec_ok}
pub mod Phases

-- A method of the relayer's lifecycle; on nil it panics.
unfoldable pub managed : {A : Type 0} → Action Managed A → Action DockerRelayer A
managed m r = elim r.lifecycle [
  | none ↦ (panics, r)
  | some l ↦
      let (x, s) = m (record { lifecycle = l; host = r.host }) in
      (x, record r { lifecycle = some s.lifecycle; host = s.host })
]

abbrev pub set_lifecycle : Option ContainerLifecycle → Action DockerRelayer (Unit {0})
set_lifecycle l = modify (λ r. record r { lifecycle = l })

module _ (docker : Docker) (c : RelayerCommander) where
  -- `pullContainerImageIfNecessary`
  unfoldable pub pull_if_necessary : Action DockerRelayer (Unit {0})
  unfolding ask ref
  pull_if_necessary r =
      if r.pull_image
      then on_host (tell docker (pull_image (ref (container_image docker c r)))) r
      else (done tt, r)

  -- What the command of `Init` is run for, if there is one.
  abbrev pub init_by : List String → Action DockerRelayer (Unit {0})
  init_by [] = return tt
  init_by (w ∷ ws) = exec_ok docker c (done (w ∷ ws)) >> return tt

  -- `NewDockerRelayer`, from the relayer with the given host, network and test.
  unfoldable pub new_docker_relayer :
      List RelayerOpt → Host → String → Action DockerRelayer (Unit {0})
  unfolding apply_all pull_if_necessary ask ref exec_ok
  new_docker_relayer options host test_name r =
      let r' : DockerRelayer = apply_all options (record {
        volume_name = "";
        test_name = test_name;
        custom_image = none;
        pull_image = true;
        lifecycle = none;
        wallets = [];
        home_dir = "/home/relayer";
        extra_startup_flags = [];
        host = host;
        reports = [];
      }) in
      let image = container_image docker c r' in
      (do
        modify (λ _. r')
        pull_if_necessary
        volume ← on_host (wrapped "creating volume: " (ask docker create_volume docker.text))
        modify (λ s. record s { volume_name = volume })
        on_host (
            wrapped "set volume owner: "
              (tell docker (set_volume_owner volume (ref image) image.uid_gid)))
        home ← gets (λ s. s.home_dir)
        init_by (c.init home))
        r

  abbrev pub container_name_of : List String → String → String
  container_name_of paths suffix = cat c.name (cat "-" (cat (join "." paths) (cat "-" suffix)))

  -- `StartRelayer` of a relayer that is not started.
  unfoldable pub start_stopped : List String → String → Action DockerRelayer (Unit {0})
  unfolding managed create start host_name
  start_stopped paths suffix r =
      (do
        cmd ← ended (c.start_relayer r.home_dir paths)
        set_lifecycle (some (new_container_lifecycle (container_name_of paths suffix)))
        managed (
            create docker (container_image docker c r) [] (bind docker c r)
              (host_name docker c (join "." paths)) cmd)
        managed (start docker))
        r

  -- `StartRelayer`
  unfoldable pub start_relayer : List String → String → Action DockerRelayer (Unit {0})
  unfolding start_stopped
  start_relayer paths suffix r = elim r.lifecycle [
    | none ↦ start_stopped paths suffix r
    | some l ↦ (fails "tried to start relayer again without stopping first", r)
  ]

  -- What StopRelayer reports of the container that it stopped.
  unfoldable pub report_stopped : String → Action DockerRelayer (Unit {0})
  unfolding ask
  report_stopped id = do
    on_host (wrapped "StopRelayer: retrieving ContainerLogs: " (tell docker (container_logs id)))
    logs ←
        on_host (wrapped "StopRelayer: demuxing logs: " (ask docker (read_logs id) docker.result))
    seen ← on_host (
        wrapped "StopRelayer: inspecting container: "
          (ask docker (inspect_container id) docker.inspected))
    modify (λ r. record r {
      reports =
          r.reports
          ++ record {
            container_name = seen.name;
            command = seen.args;
            stdout = logs.stdout;
            stderr = logs.stderr;
            exit_code = seen.exit_code;
            err = none;
          }
            ∷ [];
    })

  -- `StopRelayer` of a relayer that is started.
  unfoldable pub stop_started : ContainerLifecycle → Action DockerRelayer (Unit {0})
  unfolding managed stop report_stopped remove
  stop_started l = do
    managed (stop docker)
    report_stopped l.id
    managed (remove docker)
    set_lifecycle none

  -- `StopRelayer`
  unfoldable pub stop_relayer : Action DockerRelayer (Unit {0})
  unfolding stop_started
  stop_relayer r = elim r.lifecycle [ none ↦ (done tt, r) | some l ↦ stop_started l r ]

  -- `PauseRelayer`
  unfoldable pub pause_relayer : Action DockerRelayer (Unit {0})
  unfolding ask
  pause_relayer r = elim r.lifecycle [
    | none ↦ (fails "container not running", r)
    | some l ↦ on_host (tell docker (pause_container l.id)) r
  ]

  -- `ResumeRelayer`
  unfoldable pub resume_relayer : Action DockerRelayer (Unit {0})
  unfolding ask
  resume_relayer r = elim r.lifecycle [
    | none ↦ (fails "container not running", r)
    | some l ↦ on_host (tell docker (unpause_container l.id)) r
  ]
