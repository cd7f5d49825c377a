-- ===== src/Dockerutil/Lifecycle.antt =====
-- `ContainerLifecycle` of dockerutil/container_lifecycle.go, with `PullImage` of ibc/types.go. Of
-- the settings of a container, a call names those that the program's answers depend on.
use Prim.Native.Char.{code}
use text.Mathlib.Text.{starts_with}
use interchaintest.Base.{
  ℕ, String, Bool, not, ◌&&◌, ◌||◌, Option, none, some, List, [], leb, if◌then◌else◌, ◌==◌, cat,
  contains, nat_eq, string_eq,
}
use interchaintest.Base.Actions.{
  Ended, Action, done, fails, panics, blocks, ◌>>=◌, ◌>>◌, return, errorf, modify, gets,
}
use interchaintest.Ibc.Image.{DockerImage, ref}
use interchaintest.Dockerutil.{
  inspect_image, pull_image, create_container, start_container, container_logs, read_logs,
  stop_container, remove_container, pause_container, unpause_container, Host, Docker, ask, tell,
}
use interchaintest.Dockerutil.Ports.{PortBinding, Listeners, close_all, generate_port_bindings}

pub record ContainerLifecycle : Type 0 where
  pub container_name : String
  pub id : String
  pub pre_start_listeners : Listeners

-- `NewContainerLifecycle`
abbrev pub new_container_lifecycle : String → ContainerLifecycle
new_container_lifecycle name = record { container_name = name; id = ""; pre_start_listeners = [] }

-- A lifecycle and the host that its methods call.
pub record Managed : Type 0 where
  pub lifecycle : ContainerLifecycle
  pub host : Host

abbrev pub on_host : {A : Type 0} → Action Host A → Action Managed A
on_host m s = let (r, h) = m s.host in (r, record s { host = h })

abbrev pub wrap : {A : Type 0} → String → Ended A × Host → Ended A × Host
wrap prefix (fails e, h) = (fails (cat prefix e), h)
wrap prefix (done a, h) = (done a, h)
wrap prefix (panics, h) = (panics, h)
wrap prefix (blocks, h) = (blocks, h)

-- `fmt.Errorf(prefix + "%w", err)` around an action.
abbrev pub wrapped : {A : Type 0} → String → Action Host A → Action Host A
wrapped prefix m h = wrap prefix (m h)

-- A line with its end, if it has one.
unfoldable pub line_of : String → Option String
line_of String.[] = none
line_of (String.◌∷◌ c s) =
    let rest = line_of s in
    if code c == 10
    then some (String.◌∷◌ c "")
    else elim rest [ none ↦ none | some l ↦ some (String.◌∷◌ c l) ]

-- `panicRe.FindString`: `none` where nothing matches.
unfoldable pub find_panic : String → Option String
unfolding line_of
find_panic String.[] = none
find_panic (String.◌∷◌ c s) =
    let rest = find_panic s in
    if starts_with (String.◌∷◌ c s) "panic:" then line_of (String.◌∷◌ c s) else rest

abbrev is_space : ℕ → Bool
is_space c = c == 32 || (leb 9 c && leb c 13)

-- `strings.TrimSpace` of a text that begins with no space.
unfoldable pub trim_end : String → String
trim_end String.[] = ""
trim_end (String.◌∷◌ c s) =
    let rest = trim_end s in if rest == "" && is_space (code c) then "" else String.◌∷◌ c rest

-- `ParseSDKPanicFromText`
unfoldable pub parse_sdk_panic_from_text : String → Option String
unfolding find_panic trim_end contains
parse_sdk_panic_from_text text =
    if not (contains text "panic: ")
    then none
    else elim (find_panic text) [ none ↦ none | some m ↦ some (trim_end m) ]

module _ (docker : Docker) where
  abbrev pub if_absent : String → Ended (Unit {0}) × Host → Ended (Unit {0}) × Host
  if_absent image (fails e, h) =
      wrap (cat "pull image " (cat image ": ")) (tell docker (pull_image image) h)
  if_absent image (done u, h) = (done tt, h)
  if_absent image (panics, h) = (panics, h)
  if_absent image (blocks, h) = (blocks, h)

  -- `(DockerImage).PullImage`
  unfoldable pub pull : DockerImage → Action Host (Unit {0})
  unfolding ask ref
  pull i h = if_absent (ref i) (tell docker (inspect_image (ref i)) h)

  abbrev pub created : Ended String × Host → Managed → Ended (Unit {0}) × Managed
  created (done id, h) s =
      (done tt, record s { lifecycle = record s.lifecycle { id = id }; host = h })
  created (fails e, h) s = (
    fails e,
    record s {
      lifecycle = record s.lifecycle { pre_start_listeners = [] };
      host = close_all s.lifecycle.pre_start_listeners h;
    },
  )
  created (panics, h) s = (panics, record s { host = h })
  created (blocks, h) s = (blocks, record s { host = h })

  -- The call of ContainerCreate and what follows it.
  unfoldable pub create_now :
      DockerImage → List String → String → List String → Action Managed (Unit {0})
  unfolding ask close_all ref
  create_now image binds host_name cmd s =
      created
        (ask docker (create_container s.lifecycle.container_name (ref image) cmd binds host_name)
          docker.new_id s.host)
        s

  -- `(*ContainerLifecycle).CreateContainer`
  unfoldable pub create :
      DockerImage
      → List (String × List PortBinding)
      → List String
      → String
      → List String
      → Action Managed (Unit {0})
  unfolding pull create_now generate_port_bindings
  create image ports binds host_name cmd = do
    on_host (pull image)
    bound ←
        on_host (wrapped "failed to generate port bindings: " (generate_port_bindings docker ports))
    modify (λ s. record s { lifecycle = record s.lifecycle { pre_start_listeners = bound.1 } })
    create_now image binds host_name cmd

  -- The verdict on the logs.
  abbrev pub panicked : String → Option String → Action Managed (Unit {0})
  panicked name none = return tt
  panicked name (some e) = errorf (cat "container " (cat name (cat " failed to start: " e)))

  -- `(*ContainerLifecycle).CheckForFailedStart`, after its wait.
  unfoldable pub check_for_failed_start : Action Managed (Unit {0})
  unfolding ask parse_sdk_panic_from_text
  check_for_failed_start s =
      let name = s.lifecycle.container_name in
      let prefix = cat "failed to read logs from container " (cat name ": ") in
      (do
        on_host (wrapped prefix (tell docker (container_logs s.lifecycle.id)))
        logs ← on_host (wrapped prefix (ask docker (read_logs s.lifecycle.id) docker.text))
        panicked name (parse_sdk_panic_from_text logs))
        s

  -- `(*ContainerLifecycle).StartContainer`
  unfoldable pub start : Action Managed (Unit {0})
  unfolding ask close_all check_for_failed_start
  start = do
    modify (λ s. record s {
      lifecycle = record s.lifecycle { pre_start_listeners = [] };
      host = close_all s.lifecycle.pre_start_listeners s.host;
    })
    id ← gets (λ s. s.lifecycle.id)
    on_host (tell docker (start_container id))
    check_for_failed_start

  -- `(*ContainerLifecycle).StopContainer`
  unfoldable pub stop : Action Managed (Unit {0})
  unfolding ask
  stop s = on_host (tell docker (stop_container s.lifecycle.id)) s

  abbrev pub unless_absent : String → Ended (Unit {0}) × Host → Ended (Unit {0}) × Host
  unless_absent name (fails e, h) =
      if docker.is_not_found e
      then (done tt, h)
      else (fails (cat "remove container " (cat name (cat ": " e))), h)
  unless_absent name (done u, h) = (done tt, h)
  unless_absent name (panics, h) = (panics, h)
  unless_absent name (blocks, h) = (blocks, h)

  -- `(*ContainerLifecycle).RemoveContainer`
  unfoldable pub remove : Action Managed (Unit {0})
  unfolding ask
  remove s =
      on_host
        (λ h.
          unless_absent s.lifecycle.container_name
            (tell docker (remove_container s.lifecycle.id) h))
        s

  -- `PauseContainer` and `UnpauseContainer`
  unfoldable pub pause : Action Managed (Unit {0})
  unfolding ask
  pause s = on_host (tell docker (pause_container s.lifecycle.id)) s

  unfoldable pub unpause : Action Managed (Unit {0})
  unfolding ask
  unpause s = on_host (tell docker (unpause_container s.lifecycle.id)) s
