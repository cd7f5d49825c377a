-- ===== src/Dockerutil/Calm.antt =====
-- The methods of dockerutil return, with a result or an error: none of them panics or waits for ever.
use interchaintest.Base.{
  ℕ, String, inl, inr, Option, none, some, List, [], ◌∷◌, Bool-cases, Option-cases, ℤ, string_eq,
}
use interchaintest.Base.Actions.{Ended, Action, done, fails, panics, blocks, continue, Returns}
use interchaintest.Ibc.Image.{DockerImage, ref}
use interchaintest.Dockerutil.{
  DockerCall, pull_image, inspect_image, start_container, container_logs, read_logs, stop_container,
  remove_container, Calls, Host, Docker, ask, tell,
}
use interchaintest.Dockerutil.Ports.{
  PortBinding, PortMap, Listeners, get_port, close_and_fail, bind_ports, generate_port_bindings,
  requested,
}
use interchaintest.Dockerutil.Lifecycle.{
  Managed, wrap, wrapped, if_absent, pull, created, create_now, create, panicked,
  parse_sdk_panic_from_text, check_for_failed_start, start, stop, unless_absent, remove,
}
use interchaintest.Dockerutil.Lifecycle

pub continue-Returns :
    {S A B : Type 0} (x : Ended A × S) (f : A → Action S B)
    → Returns x.0
    → ((a : A) (s : S) → Returns (f a s).0)
    → Returns (continue x f).0
continue-Returns (done a, s) f h k = k a s
continue-Returns (fails e, s) f h k = tt
continue-Returns (panics, s) f h k = absurd h
continue-Returns (blocks, s) f h k = absurd h

pub wrap-Returns :
    {A : Type 0} (prefix : String) (x : Ended A × Host) → Returns x.0 → Returns (wrap prefix x).0
wrap-Returns prefix (done a, h) k = tt
wrap-Returns prefix (fails e, h) k = tt
wrap-Returns prefix (panics, h) k = absurd k
wrap-Returns prefix (blocks, h) k = absurd k

module _ (docker : Docker) where
  pub ask-Returns :
      {A : Type 0} (c : DockerCall) (read : Calls → DockerCall → A) (h : Host)
      → Returns (ask docker c read h).0
  unfolding ask
  ask-Returns c read h = elim (Option-cases (docker.fault h.calls c)) [
    | inl e ↦ rw (e, ask) tt
    | inr (x, e) ↦ rw (e, ask) tt
  ]

  get_port-Returns : (n : ℤ) (h : Host) → Returns (get_port docker n h).0
  unfolding get_port
  get_port-Returns n h =
      continue-Returns (ask docker _ docker.port h) _ (ask-Returns _ docker.port h) (λ p s. tt)

  close_and_fail-Returns :
      {A : Type 0} (ls : Listeners) (x : Ended ℕ × Host) (k : ℕ → Action Host A)
      → Returns x.0
      → ((p : ℕ) (h : Host) → Returns (k p h).0)
      → Returns (close_and_fail docker ls x k).0
  close_and_fail-Returns ls (done p, h) k r all = all p h
  close_and_fail-Returns ls (fails e, h) k r all = tt
  close_and_fail-Returns ls (panics, h) k r all = absurd r
  close_and_fail-Returns ls (blocks, h) k r all = absurd r

  bind_ports-Returns :
      (pairs : List (String × List PortBinding)) (m : PortMap) (ls : Listeners) (h : Host)
      → Returns (bind_ports docker pairs m ls h).0
  unfolding bind_ports
  bind_ports-Returns [] m ls h = tt
  bind_ports-Returns ((p, binds) ∷ rest) m ls h = elim (Option-cases (requested binds)) [
    | inl e ↦ rw (e, bind_ports) tt
    | inr (n, e) ↦
        rw (e, bind_ports)
          (close_and_fail-Returns ls (get_port docker n h) _ (get_port-Returns n h)
            (λ q h'. bind_ports-Returns rest _ _ h'))
  ]

  pull-Returns : (i : DockerImage) (h : Host) → Returns (pull docker i h).0
  unfolding pull
  pull-Returns i h = go (tell docker (inspect_image (ref i)) h) (ask-Returns _ _ h)
    where
      go : (x : Ended (Unit {0}) × Host) → Returns x.0 → Returns (if_absent docker (ref i) x).0
      go (done u, h') r = tt
      go (fails e, h') r =
          wrap-Returns _ (tell docker (pull_image (ref i)) h')
            (ask-Returns (pull_image (ref i)) (λ _ _. tt) h')
      go (panics, h') r = r
      go (blocks, h') r = r

  create_now-Returns :
      (image : DockerImage) (binds : List String) (host_name : String) (cmd : List String)
      (s : Managed)
      → Returns (create_now docker image binds host_name cmd s).0
  unfolding create_now
  create_now-Returns image binds host_name cmd s =
      go (ask docker _ docker.new_id s.host) (ask-Returns _ docker.new_id s.host)
    where
      go : (x : Ended String × Host) → Returns x.0 → Returns (created docker x s).0
      go (done u, h') r = tt
      go (fails e, h') r = tt
      go (panics, h') r = r
      go (blocks, h') r = r

  pub create-Returns :
      (image : DockerImage) (ports : List (String × List PortBinding)) (binds : List String)
      (host_name : String) (cmd : List String) (s : Managed)
      → Returns (create docker image ports binds host_name cmd s).0
  unfolding create generate_port_bindings
  create-Returns image ports binds host_name cmd s =
      continue-Returns (Lifecycle.on_host (pull docker image) s) _ (pull-Returns image s.host)
        (λ u s'.
          continue-Returns
            (Lifecycle.on_host
              (wrapped "failed to generate port bindings: " (bind_ports docker ports [] [])) s')
            _
            (wrap-Returns _ (bind_ports docker ports [] [] s'.host)
              (bind_ports-Returns ports [] [] s'.host))
            (λ bound s''. create_now-Returns image binds host_name cmd _))

  check-Returns : (s : Managed) → Returns (check_for_failed_start docker s).0
  unfolding check_for_failed_start
  check-Returns s =
      continue-Returns
        (Lifecycle.on_host (wrapped _ (tell docker (container_logs s.lifecycle.id))) s) _
        (wrap-Returns _ (tell docker _ s.host)
          (ask-Returns (container_logs s.lifecycle.id) (λ _ _. tt) s.host))
        (λ u s'.
          continue-Returns
            (Lifecycle.on_host (wrapped _ (ask docker (read_logs s.lifecycle.id) docker.text)) s') _
            (wrap-Returns _ (ask docker _ docker.text s'.host) (ask-Returns _ docker.text s'.host))
            (λ logs s''. verdict (parse_sdk_panic_from_text logs) s''))
    where
      verdict :
          (o : Option String) (t : Managed)
          → Returns (panicked docker s.lifecycle.container_name o t).0
      verdict none t = tt
      verdict (some e) t = tt

  pub start-Returns : (s : Managed) → Returns (start docker s).0
  unfolding start
  start-Returns s =
      continue-Returns (Lifecycle.on_host (tell docker (start_container s.lifecycle.id)) _) _
        (ask-Returns _ _ _) (λ u s'. check-Returns s')

  pub stop-Returns : (s : Managed) → Returns (stop docker s).0
  unfolding stop
  stop-Returns s = ask-Returns (stop_container s.lifecycle.id) (λ _ _. tt) s.host

  pub remove-Returns : (s : Managed) → Returns (remove docker s).0
  unfolding remove
  remove-Returns s =
      go (tell docker (remove_container s.lifecycle.id) s.host) (ask-Returns _ _ s.host)
    where
      go :
          (x : Ended (Unit {0}) × Host)
          → Returns x.0
          → Returns (unless_absent docker s.lifecycle.container_name x).0
      go (done u, h') r = tt
      go (fails e, h') r = elim (Bool-cases (docker.is_not_found e)) [
        | inl q ↦ rw q tt
        | inr q ↦ rw q tt
      ]
      go (panics, h') r = r
      go (blocks, h') r = r
