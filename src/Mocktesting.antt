-- ===== src/Mocktesting.antt =====
-- Package mocktesting: the fake testing.T of mocktesting/t.go. A test is the calls that its body
-- makes, one after another; `call e` is a call of other code, whose effect on a state outside, and
-- whose panic, are a parameter. Parallel sleeps, which changes no state.
use interchaintest.Base.{
  String, Bool, true, false, not, ◌||◌, Option, none, some, List, [], ◌∷◌, ◌++◌, if◌then◌else◌,
  ◌==◌, ℤ, pos, string_eq,
}
pub mod Simulate
pub mod Cleanups

-- A body: each call and what follows it.
pub data Body (E : Type 0) : Type 0 where
  done : Body E
  helper parallel fail fail_now : Body E → Body E
  logf errorf skip : String → Body E → Body E
  -- `t.Cleanup(f)`
  cleanup : Body E → Body E → Body E
  call : E → Body E → Body E

pub record T (E : Type 0) : Type 0 where
  pub name : String
  pub helper_called : Bool
  pub fail_called : Bool
  pub cleanups : List (Body E)
  pub ran_cleanups : Bool
  pub logs : List String
  pub errors : List String
  pub skips : List String
  pub parallel_delay : ℤ
  pub simulating : Bool

pub data MockPanic : Type 0 where
  empty_name run_cleanups_twice skip_outside fail_now_outside called_code : MockPanic

-- How a goroutine leaves a function: `goexit` is `runtime.Goexit`.
pub data Exit : Type 0 where
  returned goexit : Exit
  panicked : MockPanic → Exit

pub data NewT (E : Type 0) : Type 0 where
  new : T E → NewT E
  new_panics : MockPanic → NewT E

abbrev is_empty {ℓ} : {A : Type ℓ} → List A → Bool
is_empty [] = true
is_empty (x ∷ xs) = false

unfoldable pub reverse {ℓ} : {A : Type ℓ} → List A → List A
reverse [] = []
reverse (x ∷ xs) = reverse xs ++ x ∷ []

module _ {E : Type 0} where
  abbrev pub fresh : String → T E
  fresh name = record {
    name = name;
    helper_called = false;
    fail_called = false;
    cleanups = [];
    ran_cleanups = false;
    logs = [];
    errors = [];
    skips = [];
    parallel_delay = pos 0;
    simulating = false;
  }

  -- `NewT`
  unfoldable pub new_t : String → NewT E
  new_t name = if name == "" then new_panics empty_name else new (fresh name)

  -- `(*T).Failed`
  unfoldable pub failed : T E → Bool
  failed t = t.fail_called || not (is_empty t.errors)

  -- `(*T).Skipped`
  unfoldable pub skipped : T E → Bool
  skipped t = not (is_empty t.skips)

module _ {E S : Type 0} (effect : E → T E → S → Option S) where
  abbrev pub Left : Type 0
  Left = (T E × S) × Exit

  -- The methods of T, in the order of a body's calls, up to one that leaves it.
  unfoldable pub exec : Body E → T E → S → Left
  exec done t s = ((t, s), returned)
  exec (helper k) t s = exec k (record t { helper_called = true }) s
  exec (parallel k) t s = exec k t s
  exec (fail k) t s = exec k (record t { fail_called = true }) s
  exec (fail_now k) t s =
      if t.simulating
      then ((record t { fail_called = true }, s), goexit)
      else ((t, s), panicked fail_now_outside)
  exec (logf m k) t s = exec k (record t { logs = t.logs ++ m ∷ [] }) s
  exec (errorf m k) t s = exec k (record t { errors = t.errors ++ m ∷ [] }) s
  exec (skip m k) t s =
      if t.simulating
      then ((record t { skips = t.skips ++ m ∷ [] }, s), goexit)
      else ((t, s), panicked skip_outside)
  exec (cleanup f k) t s = exec k (record t { cleanups = t.cleanups ++ f ∷ [] }) s
  exec (call e k) t s = elim (effect e t s) [
    | none ↦ ((t, s), panicked called_code)
    | some s' ↦ exec k t s'
  ]

  abbrev pub unless_left : Left → (T E → S → Left) → Left
  unless_left ((t, s), returned) f = f t s
  unless_left (w, goexit) f = (w, goexit)
  unless_left (w, panicked p) f = (w, panicked p)

  -- The loop of RunCleanups over the functions in their order of running; one that leaves the
  -- goroutine ends the loop.
  unfoldable pub run_all : List (Body E) → T E → S → Left
  unfolding exec
  run_all [] t s = ((t, s), returned)
  run_all (f ∷ fs) t s = unless_left (exec f t s) (run_all fs)

  abbrev pub after_cleanups : Left → Left
  after_cleanups ((t, s), returned) =
      ((record t { cleanups = []; ran_cleanups = true }, s), returned)
  after_cleanups (w, goexit) = (w, goexit)
  after_cleanups (w, panicked p) = (w, panicked p)

  -- `(*T).RunCleanups`
  unfoldable pub run_cleanups : T E → S → Left
  unfolding run_all reverse
  run_cleanups t s =
      if t.ran_cleanups
      then ((t, s), panicked run_cleanups_twice)
      else after_cleanups (run_all (reverse t.cleanups) t s)

  abbrev pub stop_simulating : Left → Left
  stop_simulating ((t, s), e) = ((record t { simulating = false }, s), e)

  -- A function's deferred RunCleanups, however the function was left; its own panic goes on after it.
  abbrev pub deferred_cleanups : Left → Left
  deferred_cleanups ((t, s), panicked p) = ((run_cleanups t s).0, panicked p)
  deferred_cleanups ((t, s), returned) = run_cleanups t s
  deferred_cleanups ((t, s), goexit) = run_cleanups t s

  -- `(*T).Simulate`: an exit other than a panic ends its goroutine only.
  unfoldable pub simulate : Body E → T E → S → Left
  unfolding exec run_cleanups
  simulate body t s =
      stop_simulating (deferred_cleanups (exec body (record t { simulating = true }) s))
