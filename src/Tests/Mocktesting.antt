-- ===== src/Tests/Mocktesting.antt =====
-- A body that is left by Skip after it registered two functions.
use interchaintest.Base.{ℕ, ◌≡◌, refl, true, [], ◌∷◌, ◌++◌, string_eq}
use interchaintest.Mocktesting.{
  Body, done, errorf, skip, cleanup, call, fresh, reverse, returned, exec, run_all, run_cleanups,
  simulate,
}
use interchaintest.Mocktesting.Simulate.{registered}
use interchaintest.Mocktesting.Cleanups.{effects, effects_all, logged, simulate-log}

abbrev body : Body ℕ
body = call 1 (
    cleanup (call 2 (errorf "late" (call 3 done)))
      (cleanup (call 4 done) (call 5 (skip "slow" (call 6 done)))))

body_runs : (simulate logged body (fresh "test") []).0.1 ≡ 1 ∷ 5 ∷ 4 ∷ 2 ∷ 3 ∷ []
unfolding simulate run_cleanups run_all exec reverse
body_runs = refl

simulate-log_example :
    ((simulate logged body (fresh "test") []).0.1
      ≡ effects body ++ effects_all (reverse (registered body)))
    × ((simulate logged body (fresh "test") []).1 ≡ returned)
    × ((simulate logged body (fresh "test") []).0.0.cleanups ≡ [])
    × ((simulate logged body (fresh "test") []).0.0.ran_cleanups ≡ true)
unfolding reverse registered
simulate-log_example = simulate-log body "test" (tt, (tt, tt))
