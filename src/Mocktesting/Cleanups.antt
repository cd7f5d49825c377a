-- ===== src/Mocktesting/Cleanups.antt =====
-- The order in which a simulated body and its cleanups run.
use mathlib.Core.List.{append_assoc, append-nil}
use interchaintest.Base.{
  String, ◌≡◌, refl, sym, ap, ◌∙◌, true, false, Option, some, List, [], ◌∷◌, ◌++◌, if◌then◌else◌,
  All, string_eq,
}
use interchaintest.Mocktesting.{
  Body, done, helper, parallel, fail, fail_now, logf, errorf, skip, cleanup, call, T, returned,
  goexit, panicked, run_cleanups_twice, reverse, fresh, Left, exec, run_all, run_cleanups,
  unless_left, after_cleanups, stop_simulating, deferred_cleanups, simulate,
}
use interchaintest.Mocktesting.Simulate.{
  registered, RunsThrough, Keeps, Ends, exec-Ends, exec-Returns, run_all-Returns,
}

module _ {E S : Type 0} (effect : E → T E → S → Option S) (P : S → Type 0) where
  deferred-Ends :
      (b : Body E) (t : T E) (r : Left effect)
      → Ends effect P b t r
      → deferred_cleanups effect r ≡ run_cleanups effect r.0.0 r.0.1
  deferred-Ends b t ((t', s'), returned) h = refl
  deferred-Ends b t ((t', s'), goexit) h = refl
  deferred-Ends b t ((t', s'), panicked p) h = absurd (h.0 p refl)

  run_cleanups_lem :
      (fs : List (Body E)) (l : Left effect) (t : T E) (s : S)
      → t.ran_cleanups ≡ false
      → t.cleanups ≡ fs
      → run_all effect (reverse fs) t s ≡ l
      → run_cleanups effect t s ≡ after_cleanups effect l
  unfolding run_cleanups
  run_cleanups_lem fs l t s ran cl e =
      ap
        (λ b.
          if b
          then ((t, s), panicked run_cleanups_twice)
          else after_cleanups effect (run_all effect (reverse t.cleanups) t s))
        ran
      ∙ ap (λ l'. after_cleanups effect l') (ap (λ gs. run_all effect (reverse gs) t s) cl ∙ e)

  -- Simulate of a test that did not run its cleanups yet: the body, then its functions in the
  -- reverse order of their registration.
  pub simulate-Returns :
      (b : Body E) (t : T E) (s : S)
      → Keeps effect P
      → P s
      → t.ran_cleanups ≡ false
      → t.cleanups ≡ []
      → All RunsThrough (reverse (registered b))
      → (t' : T E) × (s' : S) × (run_all effect
            (reverse (registered b))
            (exec effect b (record t { simulating = true }) s).0.0
            (exec effect b (record t { simulating = true }) s).0.1
          ≡ ((t', s'), returned))
        × P s'
        × (t'.name ≡ t.name)
        × (simulate effect b t s ≡ (
          (record t' { cleanups = []; ran_cleanups = true; simulating = false }, s'),
          returned,
        ))
  unfolding simulate
  simulate-Returns b t s keeps h ran none_yet q =
      let t0 : T E = record t { simulating = true } in
      let ends = exec-Ends effect P b t0 s keeps h refl in
      let (np, h1, sim, ran1, name1, cl, thr) = ends in
      let r = exec effect b t0 s in
      let (t', s', e, h', sim', ran', name') =
        run_all-Returns effect P (reverse (registered b)) r.0.0 r.0.1 keeps h1 sim q in
      let order : r.0.0.cleanups ≡ registered b = cl ∙ ap (λ l. l ++ registered b) none_yet in
      (
        t',
        s',
        e,
        h',
        name' ∙ name1,
        ap (stop_simulating effect) (
            deferred-Ends b t0 r ends
            ∙ run_cleanups_lem (registered b) _ r.0.0 r.0.1 (ran1 ∙ ran) order e),
      )

module _ {E : Type 0} where
  -- The calls of other code that a body makes before it is left, in order.
  unfoldable pub effects : Body E → List E
  effects done = []
  effects (helper k) = effects k
  effects (parallel k) = effects k
  effects (fail k) = effects k
  effects (fail_now k) = []
  effects (logf m k) = effects k
  effects (errorf m k) = effects k
  effects (skip m k) = []
  effects (cleanup f k) = effects k
  effects (call e k) = e ∷ effects k

  unfoldable pub effects_all : List (Body E) → List E
  effects_all [] = []
  effects_all (f ∷ fs) = effects f ++ effects_all fs

  -- Called code that writes down that it was called.
  abbrev pub logged : E → T E → List E → Option (List E)
  logged e t s = some (s ++ e ∷ [])

  Keeps-logged : Keeps logged (λ s. Unit {0})
  Keeps-logged e t s h = (s ++ e ∷ [], refl, tt)

  exec-log :
      (b : Body E) (t : T E) (s : List E)
      → t.simulating ≡ true
      → (exec logged b t s).0.1 ≡ s ++ effects b
  unfolding exec effects
  exec-log done t s sim = sym (append-nil s)
  exec-log (helper k) t s sim = exec-log k _ s sim
  exec-log (parallel k) t s sim = exec-log k t s sim
  exec-log (fail k) t s sim = exec-log k _ s sim
  exec-log (fail_now k) t s sim = rw sim (sym (append-nil s))
  exec-log (logf m k) t s sim = exec-log k _ s sim
  exec-log (errorf m k) t s sim = exec-log k _ s sim
  exec-log (skip m k) t s sim = rw sim (sym (append-nil s))
  exec-log (cleanup f k) t s sim = exec-log k _ s sim
  exec-log (call e k) t s sim = exec-log k t (s ++ e ∷ []) sim ∙ append_assoc s (e ∷ []) (effects k)

  run_all-log :
      (fs : List (Body E)) (t : T E) (s : List E)
      → t.simulating ≡ true
      → All RunsThrough fs
      → (run_all logged fs t s).0.1 ≡ s ++ effects_all fs
  unfolding run_all effects_all
  run_all-log [] t s sim q = sym (append-nil s)
  run_all-log (f ∷ fs) t s sim q =
      let (t1, s1, e1, h1, sim1, ran1, n1) =
        exec-Returns logged (λ s. Unit {0}) f t s Keeps-logged tt sim q.0 in
      let said : s1 ≡ s ++ effects f = sym (ap (λ l. l.0.1) e1) ∙ exec-log f t s sim in
      ap (λ l. (unless_left logged l (run_all logged fs)).0.1) e1
      ∙ run_all-log fs t1 s1 (sim1 ∙ sim) q.1
      ∙ ap (λ l. l ++ effects_all fs) said
      ∙ append_assoc s (effects f) (effects_all fs)

  -- Simulate of a new test calls what the body calls up to where it returns, or is left by FailNow
  -- or Skip, and then, in both cases, what the registered functions call, the last registered first,
  -- if none of them is left by FailNow or Skip. It returns with no function registered any more and
  -- its cleanups marked as run.
  pub simulate-log :
      (b : Body E) (name : String)
      → All RunsThrough (reverse (registered b))
      → ((simulate logged b (fresh name) []).0.1
          ≡ effects b ++ effects_all (reverse (registered b)))
        × ((simulate logged b (fresh name) []).1 ≡ returned)
        × ((simulate logged b (fresh name) []).0.0.cleanups ≡ [])
        × ((simulate logged b (fresh name) []).0.0.ran_cleanups ≡ true)
  simulate-log b name q =
      let (t', s', e, h, n, sim) =
        simulate-Returns logged (λ s. Unit {0}) b (fresh name) [] Keeps-logged tt refl refl q in
      let t0 : T E = record (fresh name) { simulating = true } in
      let (np, p1, sim1, ran1, name1, cl1, thr1) =
        exec-Ends logged (λ s. Unit {0}) b t0 [] Keeps-logged tt refl in
      (
        ap (λ l. l.0.1) sim
            ∙ sym (ap (λ l. l.0.1) e)
            ∙ run_all-log (reverse (registered b)) _ _ sim1 q
            ∙ ap (λ l. l ++ effects_all (reverse (registered b))) (exec-log b t0 [] refl),
        ap (λ l. l.1) sim,
        ap (λ l. l.0.0.cleanups) sim,
        ap (λ l. l.0.0.ran_cleanups) sim,
      )
