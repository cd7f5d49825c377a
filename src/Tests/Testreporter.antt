-- ===== src/Tests/Testreporter.antt =====
-- A relayer's command, a tracked test that fails and is skipped, and a report of them.
use interchaintest.Base.{ℕ, ◌≡◌, refl, [], ◌∷◌, pos, string_eq}
use interchaintest.Mocktesting.{Body, T, done, fresh, reverse, returned, simulate}
use interchaintest.Mocktesting.Simulate.{registered}
use interchaintest.Testreporter.Messages.{Time, Message, relayer_exec, typ, json_message}
use interchaintest.Testreporter.Json.{
  marshal, unmarshal_json, read, unknown_type, unmarshal_json-marshal,
}
use interchaintest.Testreporter.Reporter.{
  Reporter, Report, report, new_reporter, track_test, track_skip, testify_errorf,
}
use interchaintest.Testreporter.Reporter.Tracking.{Finishes, begun, track_test_lem}

abbrev executed : Message
executed = relayer_exec (record {
  name = "TestRelayer";
  started_at = pos 4;
  finished_at = pos 9;
  container_name = "";
  command = "rly" ∷ "start" ∷ [];
  stdout = "ok";
  stderr = "";
  exit_code = pos 0;
  error = "timed out";
})

unmarshal_json-marshal_example :
    unmarshal_json (typ executed) (marshal executed) ≡ read (json_message executed)
unmarshal_json-marshal_example = unmarshal_json-marshal executed

other_type : unmarshal_json "Begin" [] ≡ unknown_type "Begin"
unfolding unmarshal_json
other_type = refl

abbrev now : ℕ → Time
now n = pos n

abbrev body : Body Report
body = testify_errorf "no ack" (track_skip "too slow" (testify_errorf "unseen" done))

track_test_lem_example :
    (t' : T Report) × (r' : Reporter) × (simulate
        (report now)
        (track_test body)
        (fresh "TestRelayer")
        (new_reporter now)
      ≡ ((t', r'), returned))
    × Finishes now "TestRelayer" (begun now "TestRelayer" (new_reporter now)).messages t' r'
unfolding reverse registered
track_test_lem_example = track_test_lem now body "TestRelayer" (new_reporter now) refl tt
