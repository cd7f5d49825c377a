-- ===== src/Testreporter/Reporter/Tracking.antt =====
-- The report of a tracked test, and of a suite.
use mathlib.Core.List.{append_assoc, append-nil}
use interchaintest.Base.{
  ℕ, String, ◌≡◌, refl, sym, ap, ◌∙◌, true, false, none, some, List, [], ◌∷◌, ◌++◌, if◌then◌else◌,
  length, All, All-append, subst, string_eq,
}
use interchaintest.Mocktesting.{
  Body, done, cleanup, call, T, failed, skipped, returned, reverse, fresh, run_all, unless_left,
  stop_simulating, deferred_cleanups, simulate,
}
use interchaintest.Mocktesting.Simulate.{
  exec-call, run_all-append, registered, RunsThrough, Keeps, exec-Ends, run_all-Returns,
}
use interchaintest.Mocktesting.Cleanups.{simulate-Returns}
use interchaintest.Testreporter.Messages.{Time, Message, begin_test, finish_test}
use interchaintest.Testreporter.Reporter.{
  Reporter, Report, begins, finishes, send, message_of, report, track_test,
}

-- An open reporter whose messages begin with these.
abbrev pub Continues : List Message → Reporter → Type 0
Continues sent r = (r.closed ≡ false) × (more : List Message) × (r.messages ≡ sent ++ more)

module _ (now : ℕ → Time) where
  report_open :
      (x : Report) (t : T Report) (r : Reporter)
      → r.closed ≡ false
      → report now x t r
        ≡ some (record r {
          messages = r.messages ++ message_of now x t (now (length r.messages)) ∷ [];
        })
  unfolding report send
  report_open x t r h =
      ap
        (λ b.
          if b
          then none
          else some (record r {
            messages = r.messages ++ message_of now x t (now (length r.messages)) ∷ [];
          }))
        h

  report-Keeps : (sent : List Message) → Keeps (report now) (Continues sent)
  report-Keeps sent x t r (open_, more, e) =
      let m = message_of now x t (now (length r.messages)) in
      (
        _,
        report_open x t r open_,
        (open_, more ++ m ∷ [], ap (λ l. l ++ m ∷ []) e ∙ append_assoc sent more (m ∷ [])),
      )

  All-reverse :
      (fs : List (Body Report))
      → All RunsThrough (reverse fs)
      → All RunsThrough (reverse (call finishes done ∷ fs))
  unfolding reverse
  All-reverse fs q = All-append RunsThrough (reverse fs) (call finishes done ∷ []) q (tt, tt)

  run_finish :
      (t : T Report) (r : Reporter)
      → r.closed ≡ false
      → run_all (report now) (call finishes done ∷ []) t r ≡ (
        (
          t,
          record r {
            messages = r.messages ++ message_of now finishes t (now (length r.messages)) ∷ [];
          },
        ),
        returned,
      )
  unfolding run_all
  run_finish t r h =
      ap (λ l. unless_left (report now) l (run_all (report now) []))
        (exec-call (report now) finishes done t r _ (report_open finishes t r h))

  -- The reporter at the start of a test that it tracks.
  abbrev pub begun : String → Reporter → Reporter
  begun name r = record r {
    messages =
        r.messages
        ++ begin_test (record { name = name; started_at = now (length r.messages) }) ∷ [];
  }

  simulate-track_test :
      (b : Body Report) (name : String) (r : Reporter)
      → r.closed ≡ false
      → simulate (report now) (track_test b) (fresh name) r
        ≡ simulate (report now) (cleanup (call finishes done) b) (fresh name) (begun name r)
  unfolding simulate message_of
  simulate-track_test b name r h =
      ap (λ l. stop_simulating (report now) (deferred_cleanups (report now) l))
        (exec-call (report now) begins (cleanup (call finishes done) b)
          (record (fresh name) { simulating = true }) r _
          (report_open begins (record (fresh name) { simulating = true }) r h))

  -- The test's finish, as its functions see it that run last.
  abbrev pub Finishes : String → List Message → T Report → Reporter → Type 0
  Finishes name sent t r =
      (more : List Message) × (at : Time) × (r.closed ≡ false)
      × (r.messages
          ≡ sent
            ++ (more
                ++ finish_test (record {
                  name = name;
                  finished_at = at;
                  failed = failed t;
                  skipped = skipped t;
                })
                  ∷ []))

  finish-Finishes :
      (name : String) (sent : List Message) (t : T Report) (r : Reporter)
      → t.name ≡ name
      → Continues sent r
      → Finishes name sent t (record r {
        messages = r.messages ++ message_of now finishes t (now (length r.messages)) ∷ [];
      })
  unfolding message_of
  finish-Finishes name sent t r n (open_, more, e) = (
    more,
    now (length r.messages),
    open_,
    (λ i.
          e i
          ++ finish_test (record {
            name = n i;
            finished_at = now (length r.messages);
            failed = failed t;
            skipped = skipped t;
          })
            ∷ [])
        ∙ append_assoc sent more _,
  )

  run_last-Finishes :
      (fs : List (Body Report)) (name : String) (sent : List Message) (t t1 : T Report)
      (r r1 : Reporter)
      → Continues sent r
      → t.simulating ≡ true
      → t.name ≡ name
      → All RunsThrough (reverse fs)
      → run_all (report now) (reverse (call finishes done ∷ fs)) t r ≡ ((t1, r1), returned)
      → Finishes name sent t1 r1
  unfolding reverse
  run_last-Finishes fs name sent t t1 r r1 c sim n q e =
      let (t2, r2, e2, c2, sim2, ran2, n2) =
        run_all-Returns (report now) (Continues sent) (reverse fs) t r (report-Keeps sent) c sim
          q in
      let p =
        sym (run_finish t2 r2 c2.0)
        ∙ sym (
            ap (λ l. unless_left (report now) l (run_all (report now) (call finishes done ∷ [])))
              e2)
        ∙ sym (run_all-append (report now) (reverse fs) (call finishes done ∷ []) t r)
        ∙ e in
      subst (λ l. Finishes name sent l.0.0 l.0.1) p (finish-Finishes name sent t2 r2 (n2 ∙ n) c2)

  -- A tracked test on an open reporter, in Simulate, whose own cleanups are not left by FailNow or
  -- Skip: however its body is left, Simulate returns, the reporter is still open, the messages sent
  -- begin with the test's start, and the last of them is its finish, with the verdicts that Failed
  -- and Skipped give at the end.
  pub track_test_lem :
      (b : Body Report) (name : String) (r : Reporter)
      → r.closed ≡ false
      → All RunsThrough (reverse (registered b))
      → (t' : T Report) × (r' : Reporter) × (simulate (report now) (track_test b) (fresh name) r
          ≡ ((t', r'), returned))
        × Finishes name (begun name r).messages t' r'
  unfolding registered failed skipped
  track_test_lem b name r h q =
      let sent : List Message = (begun name r).messages in
      let P = Continues sent in
      let body : Body Report = cleanup (call finishes done) b in
      let t0 : T Report = record (fresh name) { simulating = true } in
      let start : P (begun name r) = (h, [], sym (append-nil sent)) in
      let (t1, r1, e, p1, n1, sim) =
        simulate-Returns (report now) P body (fresh name) (begun name r) (report-Keeps sent) start
          refl refl (All-reverse (registered b) q) in
      let (np, c, sim0, ran0, n0, cl, thr) =
        exec-Ends (report now) P body t0 (begun name r) (report-Keeps sent) start refl in
      (
        _,
        r1,
        simulate-track_test b name r h ∙ sim,
        run_last-Finishes (registered b) name sent _ t1 _ r1 c sim0 n0 q e,
      )
