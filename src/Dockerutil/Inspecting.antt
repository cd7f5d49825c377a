-- ===== src/Dockerutil/Inspecting.antt =====
-- What `ContainerLifecycle` (dockerutil/container_lifecycle.go) reads of an inspected container, with
-- `GetHostPort` of dockerutil/strings.go.
use interchaintest.Base.{
  String, Option, none, some, List, [], ◌∷◌, map, if◌then◌else◌, lookup, cat, contains, nat_eq,
  string_eq,
}
use interchaintest.Base.Actions.{Action, ◌>>=◌, return, check}
use interchaintest.Dockerutil.{inspect_container, Inspected, Docker, ask}
use interchaintest.Dockerutil.Lifecycle.{Managed, on_host}

-- `net.JoinHostPort`
unfoldable pub join_host_port : String → String → String
join_host_port ip port =
    if contains ip ":" then cat "[" (cat ip (cat "]:" port)) else cat ip (cat ":" port)

-- `GetHostPort`
unfoldable pub get_host_port : Inspected → String → String
unfolding join_host_port
get_host_port i port_id = first (lookup port_id i.bound)
  where
    first : Option (List (String × String)) → String
    first none = ""
    first (some []) = ""
    first (some ((ip, port) ∷ more)) = join_host_port ip port

module _ (docker : Docker) where
  -- `GetHostPorts`
  unfoldable pub get_host_ports : List String → Action Managed (List String)
  unfolding ask get_host_port
  get_host_ports port_ids s =
      (do
        cjson ← on_host (ask docker (inspect_container s.lifecycle.id) docker.inspected)
        return (map (get_host_port cjson) port_ids))
        s

  abbrev pub not_running : Inspected → String → String → Option String
  not_running i name id =
      if i.is_running
      then none
      else some (cat "container with name " (cat name (cat " and id " (cat id " is not running"))))

  -- `Running`
  unfoldable pub running : Action Managed (Unit {0})
  unfolding ask
  running s =
      (do
        cjson ← on_host (ask docker (inspect_container s.lifecycle.id) docker.inspected)
        check (not_running cjson s.lifecycle.container_name s.lifecycle.id))
        s
