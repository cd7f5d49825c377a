-- ===== src/Dockerutil.antt =====
-- Package dockerutil: what the program asks of the Docker daemon and of the network, and the parts
-- of the package that work on names, ports and the life of a container.
use interchaintest.Base.{ℕ, String, Bool, Option, none, some, List, ◌∷◌, ℤ, Map, string_eq}
use interchaintest.Base.Actions.{Action, done, fails}
pub mod Names
pub mod Ports
pub mod Lifecycle
pub mod Inspecting
pub mod Written
pub mod Calm

-- A request of the Docker client, or of a listener on a port of this machine.
pub data DockerCall : Type 0 where
  inspect_image pull_image : String → DockerCall
  listen : ℤ → DockerCall
  -- The name of the container, its image, command, volume binds and host name.
  create_container : String → String → List String → List String → String → DockerCall
  start_container container_logs read_logs stop_container remove_container : String → DockerCall
  inspect_container pause_container unpause_container : String → DockerCall
  -- A container run to its end: image, command, environment and binds.
  run : String → List String → List String → List String → DockerCall
  create_volume : DockerCall
  -- The volume, the image and the owner.
  set_volume_owner : String → String → String → DockerCall
  read_file : String → String → DockerCall
  -- The volume, a path in it and the contents.
  write_file : String → String → String → DockerCall

-- The calls made so far, the latest first.
abbrev pub Calls : Type 0
Calls = List DockerCall

pub record RunResult : Type 0 where
  pub stdout : String
  pub stderr : String
  pub exit_code : ℤ

-- What the program reads of an inspected container.
pub record Inspected : Type 0 where
  pub name : String
  pub args : List String
  pub exit_code : ℤ
  pub is_running : Bool
  -- The address and the port of this machine that each port is bound to, the first binding first.
  pub bound : Map String (List (String × String))

-- What calls change: the calls made, and the ports that this process listens on.
pub record Host : Type 0 where
  pub calls : Calls
  pub listening : List ℕ

-- What the daemon answers to a call, given the calls before it: the error, if there is one, and
-- otherwise what the call reports.
pub record Docker : Type 0 where
  pub fault : Calls → DockerCall → Option String
  -- `errdefs.IsNotFound` of the error.
  pub is_not_found : String → Bool
  pub new_id : Calls → DockerCall → String
  -- The port of a listener: the one asked for, or a free one for 0.
  pub port : Calls → DockerCall → ℕ
  pub text : Calls → DockerCall → String
  pub result : Calls → DockerCall → RunResult
  pub inspected : Calls → DockerCall → Inspected

module _ (docker : Docker) where
  -- A call whose answer is read by `read`, or the error it ends with.
  unfoldable pub ask : {A : Type 0} → DockerCall → (Calls → DockerCall → A) → Action Host A
  ask c read h =
      let h' : Host = record h { calls = c ∷ h.calls } in
      elim (docker.fault h.calls c) [ none ↦ (done (read h.calls c), h') | some e ↦ (fails e, h') ]

  abbrev pub tell : DockerCall → Action Host (Unit {0})
  tell c = ask c (λ _ _. tt)
