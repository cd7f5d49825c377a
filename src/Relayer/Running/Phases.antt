-- ===== src/Relayer/Running/Phases.antt =====
-- The process of the relayer as a machine of two phases (relayer/docker.go).
use interchaintest.Base.{
  String, ◌≡◌, refl, sym, ap, inl, inr, Option, none, some, List, [], Option-cases, join, subst,
  string_eq,
}
use interchaintest.Base.Actions.{Ended, Action, done, fails, panics, blocks, continue, Returns}
use interchaintest.Dockerutil.{container_logs, read_logs, inspect_container, Docker, ask, tell}
use interchaintest.Dockerutil.Lifecycle.{
  ContainerLifecycle, new_container_lifecycle, Managed, wrapped, create, start, stop, remove,
}
use interchaintest.Dockerutil.Calm.{
  wrap-Returns, ask-Returns, create-Returns, start-Returns, stop-Returns, remove-Returns,
}
use interchaintest.Relayer.Types.{RelayerCommander, DockerRelayer}
use interchaintest.Relayer.Docker.{on_host, container_image, bind, host_name}
use interchaintest.Relayer.Running.{
  managed, container_name_of, start_relayer, start_stopped, stop_relayer, stop_started,
  report_stopped, pause_relayer, resume_relayer,
}

-- The requests of a test for the relayer's process.
pub data Request : Type 0 where
  start_request : List String → String → Request
  stop_request pause_request resume_request : Request

pub data Phase : Type 0 where
  stopped started : Phase

abbrev pub phase_of : Option ContainerLifecycle → Phase
phase_of none = stopped
phase_of (some l) = started

-- What a relayer promises: the phase after a request, by the phase before and by how it ended.
pub data Step : Phase → Request → Ended (Unit {0}) → Phase → Type 0 where
  starts :
      (paths : List String) (suffix : String) (x : Ended (Unit {0}))
      → Returns x
      → Step stopped (start_request paths suffix) x started
  refuses :
      (paths : List String) (suffix e : String)
      → Step started (start_request paths suffix) (fails e) started
  stops : Step started stop_request (done tt) stopped
  stays : (e : String) → Step started stop_request (fails e) started
  idle : Step stopped stop_request (done tt) stopped
  pauses : (x : Ended (Unit {0})) → Returns x → Step started pause_request x started
  resumes : (x : Ended (Unit {0})) → Returns x → Step started resume_request x started
  not_paused : (e : String) → Step stopped pause_request (fails e) stopped
  not_resumed : (e : String) → Step stopped resume_request (fails e) stopped

Step-to :
    {a b b' : Phase} {q : Request} {x : Ended (Unit {0})} → b' ≡ b → Step a q x b → Step a q x b'
Step-to {a} {b} {b'} {q} {x} e s = subst (λ p. Step a q x p) (sym e) s

stopped-ne-started : stopped ≡ started → ⊥
stopped-ne-started h = cc

module _ (docker : Docker) (c : RelayerCommander) where
  unfoldable pub serve : Request → Action DockerRelayer (Unit {0})
  unfolding start_relayer stop_relayer pause_relayer resume_relayer
  serve (start_request paths suffix) = start_relayer docker c paths suffix
  serve stop_request = stop_relayer docker c
  serve pause_request = pause_relayer docker c
  serve resume_request = resume_relayer docker c

  -- It returned, and the relayer is started.
  abbrev pub Stays : {A : Type 0} → Ended A × DockerRelayer → Type 0
  Stays x = Returns x.0 × (phase_of x.1.lifecycle ≡ started)

  -- It returned: with nil and a stopped relayer, or with an error and a started one.
  abbrev pub Stopping : Ended (Unit {0}) × DockerRelayer → Type 0
  Stopping (done u, r) = phase_of r.lifecycle ≡ stopped
  Stopping (fails e, r) = phase_of r.lifecycle ≡ started
  Stopping (panics, r) = ⊥
  Stopping (blocks, r) = ⊥

  continue-Stays :
      {A B : Type 0} (x : Ended A × DockerRelayer) (f : A → Action DockerRelayer B)
      → Stays x
      → ((a : A) (r : DockerRelayer) → phase_of r.lifecycle ≡ started → Stays (f a r))
      → Stays (continue x f)
  continue-Stays (done a, r) f h k = k a r h.1
  continue-Stays (fails e, r) f h k = (tt, h.1)
  continue-Stays (panics, r) f h k = absurd h.0
  continue-Stays (blocks, r) f h k = absurd h.0

  continue-Stopping :
      {A : Type 0} (x : Ended A × DockerRelayer) (f : A → Action DockerRelayer (Unit {0}))
      → Stays x
      → ((a : A) (r : DockerRelayer) → phase_of r.lifecycle ≡ started → Stopping (f a r))
      → Stopping (continue x f)
  continue-Stopping (done a, r) f h k = k a r h.1
  continue-Stopping (fails e, r) f h k = h.1
  continue-Stopping (panics, r) f h k = absurd h.0
  continue-Stopping (blocks, r) f h k = absurd h.0

  managed-Stays :
      {A : Type 0} (m : Action Managed A) (r : DockerRelayer)
      → ((s : Managed) → Returns (m s).0)
      → phase_of r.lifecycle ≡ started
      → Stays (managed m r)
  unfolding managed
  managed-Stays m r h e = elim (Option-cases r.lifecycle) [
    | inl q ↦ absurd (stopped-ne-started (rw q at e))
    | inr (l, q) ↦ rw (q, managed) (h (record { lifecycle = l; host = r.host }), refl)
  ]

  report_stopped-Stays :
      (id : String) (r : DockerRelayer)
      → phase_of r.lifecycle ≡ started
      → Stays (report_stopped docker c id r)
  unfolding report_stopped
  report_stopped-Stays id r e =
      continue-Stays (on_host (wrapped _ (tell docker (container_logs id))) r) _
        (wrap-Returns _ (tell docker (container_logs id) r.host) (ask-Returns docker _ _ r.host), e)
        (λ u r' e'.
          continue-Stays (on_host (wrapped _ (ask docker (read_logs id) docker.result)) r') _
            (
              wrap-Returns _ (ask docker (read_logs id) docker.result r'.host)
                  (ask-Returns docker _ docker.result r'.host),
              e',
            )
            (λ logs r'' e''.
              continue-Stays
                (on_host (wrapped _ (ask docker (inspect_container id) docker.inspected)) r'') _
                (
                  wrap-Returns _ (ask docker (inspect_container id) docker.inspected r''.host)
                      (ask-Returns docker _ docker.inspected r''.host),
                  e'',
                )
                (λ seen s q. (tt, q))))

  start_stopped-Stays :
      (paths : List String) (suffix : String) (r : DockerRelayer) (cmd : List String)
      → c.start_relayer r.home_dir paths ≡ done cmd
      → Stays (start_stopped docker c paths suffix r)
  unfolding start_stopped
  start_stopped-Stays paths suffix r cmd e =
      let m : Action Managed (Unit {0}) =
        create docker (container_image docker c r) [] (bind docker c r)
          (host_name docker c (join "." paths)) cmd in
      let r1 : DockerRelayer = record r {
        lifecycle = some (new_container_lifecycle (container_name_of docker c paths suffix));
      } in
      rw (e, start_stopped)
        (continue-Stays (managed m r1) (λ u. managed (start docker))
          (managed-Stays m r1
            (create-Returns docker (container_image docker c r) [] (bind docker c r)
              (host_name docker c (join "." paths)) cmd)
            refl)
          (λ u r' e'. managed-Stays (start docker) r' (start-Returns docker) e'))

  stop_started-Stopping :
      (l : ContainerLifecycle) (r : DockerRelayer)
      → phase_of r.lifecycle ≡ started
      → Stopping (stop_started docker c l r)
  unfolding stop_started
  stop_started-Stopping l r e =
      continue-Stopping (managed (stop docker) r) _
        (managed-Stays (stop docker) r (stop-Returns docker) e)
        (λ u r1 e1.
          continue-Stopping (report_stopped docker c l.id r1) _ (report_stopped-Stays l.id r1 e1)
            (λ u r2 e2.
              continue-Stopping (managed (remove docker) r2) _
                (managed-Stays (remove docker) r2 (remove-Returns docker) e2) (λ u r3 e3. refl)))

  start-Step :
      (paths : List String) (suffix : String) (r : DockerRelayer)
      → ((home : String) (ps : List String)
          → (cmd : List String) × (c.start_relayer home ps ≡ done cmd))
      → (o : Option ContainerLifecycle) → r.lifecycle ≡ o
      → let x = start_relayer docker c paths suffix r in
        Step (phase_of o) (start_request paths suffix) x.0 (phase_of x.1.lifecycle)
  unfolding start_relayer
  start-Step paths suffix r cmds none e =
      let (cmd, q) = cmds r.home_dir paths in
      let (ret, ph) = start_stopped-Stays paths suffix r cmd q in
      rw (e, start_relayer) (Step-to ph (starts paths suffix _ ret))
  start-Step paths suffix r cmds (some l) e =
      rw (e, start_relayer) (Step-to (ap phase_of e) (refuses paths suffix _))

  Stopping-Step :
      (x : Ended (Unit {0}) × DockerRelayer)
      → Stopping x
      → Step started stop_request x.0 (phase_of x.1.lifecycle)
  Stopping-Step (done u, r) h = Step-to h stops
  Stopping-Step (fails e, r) h = Step-to h (stays e)
  Stopping-Step (panics, r) h = absurd h
  Stopping-Step (blocks, r) h = absurd h

  stop-Step :
      (r : DockerRelayer) (o : Option ContainerLifecycle)
      → r.lifecycle ≡ o
      → Step
          (phase_of o)
          stop_request
          (stop_relayer docker c r).0
          (phase_of (stop_relayer docker c r).1.lifecycle)
  unfolding stop_relayer
  stop-Step r none e = rw (e, stop_relayer) (Step-to (ap phase_of e) idle)
  stop-Step r (some l) e =
      rw (e, stop_relayer)
        (Stopping-Step (stop_started docker c l r) (stop_started-Stopping l r (ap phase_of e)))

  pause-Step :
      (r : DockerRelayer) (o : Option ContainerLifecycle)
      → r.lifecycle ≡ o
      → Step
          (phase_of o)
          pause_request
          (pause_relayer docker c r).0
          (phase_of (pause_relayer docker c r).1.lifecycle)
  unfolding pause_relayer
  pause-Step r none e = rw (e, pause_relayer) (Step-to (ap phase_of e) (not_paused _))
  pause-Step r (some l) e =
      rw (e, pause_relayer) (Step-to (ap phase_of e) (pauses _ (ask-Returns docker _ _ r.host)))

  resume-Step :
      (r : DockerRelayer) (o : Option ContainerLifecycle)
      → r.lifecycle ≡ o
      → Step
          (phase_of o)
          resume_request
          (resume_relayer docker c r).0
          (phase_of (resume_relayer docker c r).1.lifecycle)
  unfolding resume_relayer
  resume-Step r none e = rw (e, resume_relayer) (Step-to (ap phase_of e) (not_resumed _))
  resume-Step r (some l) e =
      rw (e, resume_relayer) (Step-to (ap phase_of e) (resumes _ (ask-Returns docker _ _ r.host)))

  -- Whatever the daemon answers, a relayer whose commander makes a start command takes every request
  -- as the machine of two phases does: it always returns; a start, even a failed one, leaves it
  -- started; a started relayer refuses a second start, and is stopped exactly by a stop that returns
  -- nil; pausing or resuming a stopped relayer is an error.
  pub serve-Step :
      (q : Request) (r : DockerRelayer)
      → ((home : String) (ps : List String)
          → (cmd : List String) × (c.start_relayer home ps ≡ done cmd))
      → Step (phase_of r.lifecycle) q (serve q r).0 (phase_of (serve q r).1.lifecycle)
  unfolding serve
  serve-Step (start_request paths suffix) r cmds = start-Step paths suffix r cmds r.lifecycle refl
  serve-Step stop_request r cmds = stop-Step r r.lifecycle refl
  serve-Step pause_request r cmds = pause-Step r r.lifecycle refl
  serve-Step resume_request r cmds = resume-Step r r.lifecycle refl
