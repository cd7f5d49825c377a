-- ===== src/Dockerutil/Written.antt =====
-- What the calls last wrote to a file of a volume, and that the methods on a container write no file.
use interchaintest.Base.{
  ℕ, String, ◌≡◌, refl, ap, ◌∙◌, inl, inr, Bool, true, false, ◌&&◌, Option, none, some, List, [],
  ◌∷◌, if◌then◌else◌, Option-cases, ◌==◌, ==_refl, ℤ, nat_eq, string_eq,
}
use interchaintest.Base.Actions.{Ended, Action, done, fails, panics, blocks, continue, prefixed}
use interchaintest.Base.Keeping.{Keeps, continue-Keeps, OnDone}
use interchaintest.Ibc.Image.{DockerImage, ref}
use interchaintest.Dockerutil.{
  DockerCall, write_file, pull_image, inspect_image, inspect_container, start_container,
  container_logs, read_logs, Calls, Host, Docker, ask, tell,
}
use interchaintest.Dockerutil.Ports.{
  PortBinding, PortMap, Listeners, close_all, get_port, close_and_fail, bind_ports,
  generate_port_bindings, requested,
}
use interchaintest.Dockerutil.Lifecycle.{
  Managed, wrap, wrapped, if_absent, pull, created, create_now, create, panicked,
  parse_sdk_panic_from_text, check_for_failed_start, start,
}
use interchaintest.Dockerutil.Lifecycle
use interchaintest.Dockerutil.Inspecting.{get_host_ports, running, not_running}

-- What a call writes to a file of a volume.
abbrev pub written : String → String → DockerCall → Option String
written v p (write_file w q content) = if w == v && q == p then some content else none
written v p c = none

unfoldable pub last_written : String → String → Calls → Option String
last_written v p [] = none
last_written v p (c ∷ calls) =
    let earlier = last_written v p calls in
    elim (written v p c) [ some s ↦ some s | none ↦ earlier ]

last_written_after :
    (v p : String) (c : DockerCall) (calls : Calls)
    → written v p c ≡ none
    → last_written v p (c ∷ calls) ≡ last_written v p calls
unfolding last_written
last_written_after v p c calls e =
    ap (λ o. elim o [ some s ↦ some s | none ↦ last_written v p calls ]) e

last_written_write :
    (v p w q content : String) (calls : Calls)
    → last_written v p (write_file w q content ∷ calls)
      ≡ (if w == v && q == p then some content else last_written v p calls)
unfolding last_written
last_written_write v p w q content calls = chosen (w == v && q == p) (last_written v p calls)
  where
    chosen :
        (b : Bool) (earlier : Option String)
        → elim (if b then some content else none) as (λ _. Option String) [
          | some s ↦ some s
          | none ↦ earlier
        ]
          ≡ (if b then some content else earlier)
    chosen true earlier = refl
    chosen false earlier = refl

module _ (docker : Docker) (v p content : String) where
  -- The file was last written with these contents.
  abbrev pub Holds : Host → Type 0
  Holds h = last_written v p h.calls ≡ some content

  abbrev pub ManagedHolds : Managed → Type 0
  ManagedHolds s = Holds s.host

  pub ask-Keeps :
      {A : Type 0} (c : DockerCall) (read : Calls → DockerCall → A)
      → written v p c ≡ none
      → Keeps Holds (ask docker c read)
  unfolding ask
  ask-Keeps c read e h k = elim (Option-cases (docker.fault h.calls c)) [
    | inl f ↦ rw (f, ask) (last_written_after v p c h.calls e ∙ k)
    | inr (x, f) ↦ rw (f, ask) (last_written_after v p c h.calls e ∙ k)
  ]

  -- A write of these contents to that path, on any volume, and on that one.
  last_written_same :
      (w : String) (calls : Calls)
      → last_written v p calls ≡ some content
      → last_written v p (write_file w p content ∷ calls) ≡ some content
  last_written_same w calls k = last_written_write v p w p content calls ∙ either (w == v && p == p)
    where
      either : (b : Bool) → (if b then some content else last_written v p calls) ≡ some content
      either true = refl
      either false = k

  last_written_here :
      (calls : Calls) → last_written v p (write_file v p content ∷ calls) ≡ some content
  last_written_here calls =
      last_written_write v p v p content calls ∙ rw (==_refl v, ==_refl p) refl

  pub write-Keeps : (w : String) → Keeps Holds (tell docker (write_file w p content))
  unfolding ask
  write-Keeps w h k = elim (Option-cases (docker.fault h.calls (write_file w p content))) [
    | inl f ↦ rw (f, ask) (last_written_same w h.calls k)
    | inr (x, f) ↦ rw (f, ask) (last_written_same w h.calls k)
  ]

  pub write-OnDone : (h : Host) → OnDone Holds (tell docker (write_file v p content) h)
  unfolding ask
  write-OnDone h = elim (Option-cases (docker.fault h.calls (write_file v p content))) [
    | inl f ↦ rw (f, ask) (last_written_here h.calls)
    | inr (x, f) ↦ rw (f, ask) tt
  ]

  close_all-Keeps : (ls : Listeners) (h : Host) → Holds h → Holds (close_all ls h)
  unfolding close_all
  close_all-Keeps [] h k = k
  close_all-Keeps (q ∷ ls) h k = close_all-Keeps ls _ k

  close_and_fail-Keeps :
      {A : Type 0} (ls : Listeners) (x : Ended ℕ × Host) (f : ℕ → Action Host A)
      → Holds x.1
      → ((q : ℕ) → Keeps Holds (f q))
      → Holds (close_and_fail docker ls x f).1
  close_and_fail-Keeps ls (done q, h) f k all = all q h k
  close_and_fail-Keeps ls (fails e, h) f k all = close_all-Keeps ls h k
  close_and_fail-Keeps ls (panics, h) f k all = k
  close_and_fail-Keeps ls (blocks, h) f k all = k

  get_port-Keeps : (n : ℤ) → Keeps Holds (get_port docker n)
  unfolding get_port
  get_port-Keeps n h k =
      continue-Keeps Holds (ask docker _ docker.port h) _ (ask-Keeps _ docker.port refl h k)
        (λ q h' k'. k')

  bind_ports-Keeps :
      (pairs : List (String × List PortBinding)) (m : PortMap) (ls : Listeners)
      → Keeps Holds (bind_ports docker pairs m ls)
  unfolding bind_ports
  bind_ports-Keeps [] m ls h k = k
  bind_ports-Keeps ((q, binds) ∷ rest) m ls h k = elim (Option-cases (requested binds)) [
    | inl e ↦ rw (e, bind_ports) k
    | inr (n, e) ↦
        rw (e, bind_ports)
          (close_and_fail-Keeps ls (get_port docker n h) _ (get_port-Keeps n h k)
            (λ r. bind_ports-Keeps rest _ _))
  ]

  wrap-Keeps :
      {A : Type 0} (prefix : String) (x : Ended A × Host) → Holds x.1 → Holds (wrap prefix x).1
  wrap-Keeps prefix (done a, h) k = k
  wrap-Keeps prefix (fails e, h) k = k
  wrap-Keeps prefix (panics, h) k = k
  wrap-Keeps prefix (blocks, h) k = k

  pull-Keeps : (i : DockerImage) → Keeps Holds (pull docker i)
  unfolding pull
  pull-Keeps i h k = go (tell docker (inspect_image (ref i)) h) (ask-Keeps _ (λ _ _. tt) refl h k)
    where
      go : (x : Ended (Unit {0}) × Host) → Holds x.1 → Holds (if_absent docker (ref i) x).1
      go (done u, h') r = r
      go (fails e, h') r =
          wrap-Keeps _ (tell docker (pull_image (ref i)) h')
            (ask-Keeps (pull_image (ref i)) (λ _ _. tt) refl h' r)
      go (panics, h') r = r
      go (blocks, h') r = r

  create_now-Keeps :
      (image : DockerImage) (binds : List String) (host_name : String) (cmd : List String)
      → Keeps ManagedHolds (create_now docker image binds host_name cmd)
  unfolding create_now
  create_now-Keeps image binds host_name cmd s k =
      go (ask docker _ docker.new_id s.host) (ask-Keeps _ docker.new_id refl s.host k)
    where
      go : (x : Ended String × Host) → Holds x.1 → ManagedHolds (created docker x s).1
      go (done u, h') r = r
      go (fails e, h') r = close_all-Keeps s.lifecycle.pre_start_listeners h' r
      go (panics, h') r = r
      go (blocks, h') r = r

  pub create-Keeps :
      (image : DockerImage) (ports : List (String × List PortBinding)) (binds : List String)
      (host_name : String) (cmd : List String)
      → Keeps ManagedHolds (create docker image ports binds host_name cmd)
  unfolding create generate_port_bindings
  create-Keeps image ports binds host_name cmd s k =
      continue-Keeps ManagedHolds (Lifecycle.on_host (pull docker image) s) _
        (pull-Keeps image s.host k)
        (λ u s' k'.
          continue-Keeps ManagedHolds
            (Lifecycle.on_host
              (wrapped "failed to generate port bindings: " (bind_ports docker ports [] [])) s')
            _
            (wrap-Keeps _ (bind_ports docker ports [] [] s'.host)
              (bind_ports-Keeps ports [] [] s'.host k'))
            (λ bound s'' k''. create_now-Keeps image binds host_name cmd _ k''))

  check-Keeps : Keeps ManagedHolds (check_for_failed_start docker)
  unfolding check_for_failed_start
  check-Keeps s k =
      continue-Keeps ManagedHolds
        (Lifecycle.on_host (wrapped _ (tell docker (container_logs s.lifecycle.id))) s) _
        (wrap-Keeps _ (tell docker _ s.host)
          (ask-Keeps (container_logs s.lifecycle.id) (λ _ _. tt) refl s.host k))
        (λ u s' k'.
          continue-Keeps ManagedHolds
            (Lifecycle.on_host (wrapped _ (ask docker (read_logs s.lifecycle.id) docker.text)) s') _
            (wrap-Keeps _ (ask docker _ docker.text s'.host)
              (ask-Keeps _ docker.text refl s'.host k'))
            (λ logs. verdict (parse_sdk_panic_from_text logs)))
    where
      verdict :
          (o : Option String) → Keeps ManagedHolds (panicked docker s.lifecycle.container_name o)
      verdict none t l = l
      verdict (some e) t l = l

  pub start-Keeps : Keeps ManagedHolds (start docker)
  unfolding start
  start-Keeps s k =
      continue-Keeps ManagedHolds
        (Lifecycle.on_host (tell docker (start_container s.lifecycle.id)) _) _
        (ask-Keeps _ (λ _ _. tt) refl _ (close_all-Keeps s.lifecycle.pre_start_listeners s.host k))
        (λ u. check-Keeps)

  pub get_host_ports-Keeps : (ps : List String) → Keeps ManagedHolds (get_host_ports docker ps)
  unfolding get_host_ports
  get_host_ports-Keeps ps s k =
      continue-Keeps ManagedHolds
        (Lifecycle.on_host (ask docker (inspect_container s.lifecycle.id) docker.inspected) s) _
        (ask-Keeps _ docker.inspected refl s.host k) (λ c s' k'. k')

  pub running-Keeps : Keeps ManagedHolds (running docker)
  unfolding running
  running-Keeps s k =
      continue-Keeps ManagedHolds
        (Lifecycle.on_host (ask docker (inspect_container s.lifecycle.id) docker.inspected) s) _
        (ask-Keeps _ docker.inspected refl s.host k)
        (λ c. verdict (not_running docker c s.lifecycle.container_name s.lifecycle.id))
    where
      verdict : (o : Option String) → Keeps ManagedHolds (interchaintest.Base.Actions.check o)
      verdict none t l = l
      verdict (some e) t l = l
