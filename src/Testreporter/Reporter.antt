-- ===== src/Testreporter/Reporter.antt =====
-- The Reporter of testreporter/reporter.go: the messages sent on its channel, in order, and whether
-- the channel is closed. Its `T` is the fake test of mocktesting. A clock gives the time of the n-th
-- message.
use interchaintest.Base.{
  ℕ, String, Bool, true, false, Option, none, some, List, [], ◌∷◌, ◌++◌, if◌then◌else◌, length, ℤ,
  string_eq,
}
use interchaintest.Mocktesting.{
  Body, done, parallel, fail_now, errorf, skip, cleanup, call, T, failed, skipped,
}
use interchaintest.Testreporter.Messages.{
  Time, Message, begin_suite, finish_suite, begin_test, finish_test, pause_test, continue_test,
  test_error, test_skip, relayer_exec, typ,
}
use interchaintest.Testreporter.Json.{JsonObject, marshal}
pub mod Tracking

pub record Reporter : Type 0 where
  pub messages : List Message
  pub closed : Bool

-- The arguments of `TrackRelayerExec`; `err` is the error's text, if there is one.
pub record RelayerExec : Type 0 where
  pub container_name : String
  pub command : List String
  pub stdout : String
  pub stderr : String
  pub exit_code : ℤ
  pub started_at : Time
  pub finished_at : Time
  pub err : Option String

-- The sends that the reporter's methods make on behalf of a test.
pub data Report : Type 0 where
  begins finishes pauses continues : Report
  skips errs : String → Report
  executes : RelayerExec → Report

-- `r.in <- m`; sending on the closed channel panics.
unfoldable pub send : Message → Reporter → Option Reporter
send m r = if r.closed then none else some (record r { messages = r.messages ++ m ∷ [] })

abbrev pub error_text : Option String → String
error_text none = ""
error_text (some e) = e

module _ (now : ℕ → Time) where
  -- `NewReporter`
  abbrev pub new_reporter : Reporter
  new_reporter = record {
    messages = begin_suite (record { started_at = now 0 }) ∷ [];
    closed = false;
  }

  unfoldable pub message_of : Report → T Report → Time → Message
  message_of begins t at = begin_test (record { name = t.name; started_at = at })
  message_of finishes t at =
      finish_test
        (record { name = t.name; finished_at = at; failed = failed t; skipped = skipped t })
  message_of pauses t at = pause_test (record { name = t.name; at = at })
  message_of continues t at = continue_test (record { name = t.name; at = at })
  message_of (skips m) t at = test_skip (record { name = t.name; at = at; message = m })
  message_of (errs m) t at = test_error (record { name = t.name; at = at; message = m })
  message_of (executes x) t at = relayer_exec (record {
    name = t.name;
    started_at = x.started_at;
    finished_at = x.finished_at;
    container_name = x.container_name;
    command = x.command;
    stdout = x.stdout;
    stderr = x.stderr;
    exit_code = x.exit_code;
    error = error_text x.err;
  })

  unfoldable pub report : Report → T Report → Reporter → Option Reporter
  unfolding send message_of
  report x t r = send (message_of x t (now (length r.messages))) r

  -- `(*Reporter).Close`, up to the wait for the writer.
  unfoldable pub close : Reporter → Option Reporter
  unfolding send
  close r = elim (send (finish_suite (record { finished_at = now (length r.messages) })) r) [
    | none ↦ none
    | some r' ↦ some (record r' { closed = true })
  ]

-- `TrackTest`, before the rest of a body.
abbrev pub track_test : Body Report → Body Report
track_test k = call begins (cleanup (call finishes done) k)

-- `TrackParallel`
abbrev pub track_parallel : Body Report → Body Report
track_parallel k = call pauses (parallel (call continues k))

-- `TrackSkip`, with the formatted message.
abbrev pub track_skip : String → Body Report → Body Report
track_skip m k = call (skips m) (skip m k)

-- `(*TestifyReporter).Errorf`, with the formatted message, and `FailNow`.
abbrev pub testify_errorf : String → Body Report → Body Report
testify_errorf m k = call (errs m) (errorf m k)

abbrev pub testify_fail_now : Body Report → Body Report
testify_fail_now k = fail_now k

-- `TrackRelayerExec`
abbrev pub track_relayer_exec : RelayerExec → Body Report → Body Report
track_relayer_exec x k = call (executes x) k

-- The loop of `write`: what stands in the report, one wrapped message after another.
unfoldable pub write : List Message → List (String × JsonObject)
write [] = []
write (m ∷ ms) = (typ m, marshal m) ∷ write ms
