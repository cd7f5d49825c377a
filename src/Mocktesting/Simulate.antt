-- ===== src/Mocktesting/Simulate.antt =====
-- What Simulate does with the cleanups of a body, when the called code does not panic.
use mathlib.Core.List.{append_assoc, append-nil}
use interchaintest.Base.{
  ◌≡◌, refl, sym, ap, ◌∙◌, ◌≢◌, true, Option, some, List, [], ◌∷◌, ◌++◌, All, subst, string_eq,
}
use interchaintest.Mocktesting.{
  Body, done, helper, parallel, fail, fail_now, logf, errorf, skip, cleanup, call, T, returned,
  goexit, panicked, Left, exec, run_all, unless_left,
}

module _ {E : Type 0} where
  -- The functions that a body registers before it is left.
  unfoldable pub registered : Body E → List (Body E)
  registered done = []
  registered (helper k) = registered k
  registered (parallel k) = registered k
  registered (fail k) = registered k
  registered (fail_now k) = []
  registered (logf m k) = registered k
  registered (errorf m k) = registered k
  registered (skip m k) = []
  registered (cleanup f k) = f ∷ registered k
  registered (call e k) = registered k

  -- A body that is not left by FailNow or Skip.
  abbrev pub RunsThrough : Body E → Type 0
  RunsThrough done = Unit
  RunsThrough (helper k) = RunsThrough k
  RunsThrough (parallel k) = RunsThrough k
  RunsThrough (fail k) = RunsThrough k
  RunsThrough (fail_now k) = ⊥
  RunsThrough (logf m k) = RunsThrough k
  RunsThrough (errorf m k) = RunsThrough k
  RunsThrough (skip m k) = ⊥
  RunsThrough (cleanup f k) = RunsThrough k
  RunsThrough (call e k) = RunsThrough k

module _ {E S : Type 0} (effect : E → T E → S → Option S) where
  pub exec-call :
      (e : E) (k : Body E) (t : T E) (s s' : S)
      → effect e t s ≡ some s'
      → exec effect (call e k) t s ≡ exec effect k t s'
  unfolding exec
  exec-call e k t s s' q = rw (q, exec) refl

  unless_left-append :
      (f g h : T E → S → Left effect) (l : Left effect)
      → ((t : T E) (s : S) → f t s ≡ unless_left effect (g t s) h)
      → unless_left effect l f ≡ unless_left effect (unless_left effect l g) h
  unless_left-append f g h ((t, s), returned) q = q t s
  unless_left-append f g h (w, goexit) q = refl
  unless_left-append f g h (w, panicked p) q = refl

  pub run_all-append :
      (fs gs : List (Body E)) (t : T E) (s : S)
      → run_all effect (fs ++ gs) t s
        ≡ unless_left effect (run_all effect fs t s) (run_all effect gs)
  unfolding run_all
  run_all-append [] gs t s = refl
  run_all-append (f ∷ fs) gs t s =
      unless_left-append _ (run_all effect fs) (run_all effect gs) (exec effect f t s)
        (run_all-append fs gs)

module _ {E S : Type 0} (effect : E → T E → S → Option S) (P : S → Type 0) where
  -- The called code keeps `P`, and does not panic where it holds.
  abbrev pub Keeps : Type 0
  Keeps = (e : E) (t : T E) (s : S) → P s → (s' : S) × (effect e t s ≡ some s') × P s'

  -- The test's state after a body, next to the one before.
  abbrev pub Ends : Body E → T E → Left effect → Type 0
  Ends b t r =
      ((p : _) → r.1 ≢ panicked p)
      × P r.0.1
      × (r.0.0.simulating ≡ t.simulating)
      × (r.0.0.ran_cleanups ≡ t.ran_cleanups)
      × (r.0.0.name ≡ t.name)
      × (r.0.0.cleanups ≡ t.cleanups ++ registered b)
      × (RunsThrough b → r.1 ≡ returned)

  pub exec-Ends :
      (b : Body E) (t : T E) (s : S)
      → Keeps
      → P s
      → t.simulating ≡ true
      → Ends b t (exec effect b t s)
  unfolding exec registered
  exec-Ends done t s keeps h sim =
      (λ p q. cc, h, refl, refl, refl, sym (append-nil t.cleanups), λ q. refl)
  exec-Ends (helper k) t s keeps h sim = exec-Ends k _ s keeps h sim
  exec-Ends (parallel k) t s keeps h sim = exec-Ends k t s keeps h sim
  exec-Ends (fail k) t s keeps h sim = exec-Ends k _ s keeps h sim
  exec-Ends (fail_now k) t s keeps h sim =
      rw sim (λ p q. cc, h, refl, refl, refl, sym (append-nil t.cleanups), λ q. absurd q)
  exec-Ends (logf m k) t s keeps h sim = exec-Ends k _ s keeps h sim
  exec-Ends (errorf m k) t s keeps h sim = exec-Ends k _ s keeps h sim
  exec-Ends (skip m k) t s keeps h sim =
      rw sim (λ p q. cc, h, refl, refl, refl, sym (append-nil t.cleanups), λ q. absurd q)
  exec-Ends (cleanup f k) t s keeps h sim =
      let (a, b, c, d, e, g, i) =
        exec-Ends k (record t { cleanups = t.cleanups ++ f ∷ [] }) s keeps h sim in
      (a, b, c, d, e, g ∙ append_assoc t.cleanups (f ∷ []) (registered k), i)
  exec-Ends (call e k) t s keeps h sim =
      let (s', q, h') = keeps e t s h in
      subst (Ends (call e k) t) (sym (exec-call effect e k t s s' q))
        (exec-Ends k t s' keeps h' sim)

  -- What is left of a test's state when functions that run through have run.
  abbrev pub Returns : T E → Left effect → Type 0
  Returns t r =
      (t' : T E) × (s' : S) × (r ≡ ((t', s'), returned))
      × P s'
      × (t'.simulating ≡ t.simulating)
      × (t'.ran_cleanups ≡ t.ran_cleanups)
      × (t'.name ≡ t.name)

  pub exec-Returns :
      (b : Body E) (t : T E) (s : S)
      → Keeps
      → P s
      → t.simulating ≡ true
      → RunsThrough b
      → Returns t (exec effect b t s)
  exec-Returns b t s keeps h sim q =
      let (a, p, c, d, e, g, i) = exec-Ends b t s keeps h sim in
      let r = exec effect b t s in (r.0.0, r.0.1, λ j. (r.0, i q j), p, c, d, e)

  pub run_all-Returns :
      (fs : List (Body E)) (t : T E) (s : S)
      → Keeps
      → P s
      → t.simulating ≡ true
      → All RunsThrough fs
      → Returns t (run_all effect fs t s)
  unfolding run_all
  run_all-Returns [] t s keeps h sim q = (t, s, refl, h, refl, refl, refl)
  run_all-Returns (f ∷ fs) t s keeps h sim q =
      let (t1, s1, e1, h1, sim1, ran1, n1) = exec-Returns f t s keeps h sim q.0 in
      let (t2, s2, e2, h2, sim2, ran2, n2) = run_all-Returns fs t1 s1 keeps h1 (sim1 ∙ sim) q.1 in
      (
        t2,
        s2,
        ap (λ l. unless_left effect l (run_all effect fs)) e1 ∙ e2,
        h2,
        sim2 ∙ sim1,
        ran2 ∙ ran1,
        n2 ∙ n1,
      )
