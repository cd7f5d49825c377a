-- ===== src/Testutil/Wait/Delta.antt =====
-- `WaitForDelta` ends, and where it leaves the two heights.
use native.Mathlib.Decide.{ℕ_discrete}
use interchaintest.Base.{
  ℕ, zero, suc, ◌+◌, ◌≤◌, ◌<◌, ◌≡◌, refl, sym, ap, ◌∙◌, inl, inr, true, false, arith, ltb,
  Bool-cases, nat_eq,
}
use interchaintest.Testutil.Wait.{
  Answer, height, WaitResult, reached, behind, update, wait_for_delta, fresh, Height,
}

-- The chain answers every question. Its height is 0 before question `first`, where it is `base`; from
-- question `last` on it is at least `delta` blocks further.
pub record Grows (chain : ℕ → Answer) (delta first last base : ℕ) : Type 0 where
  pub heights : ℕ → ℕ
  pub answers : (k : ℕ) → chain k ≡ height (heights k)
  pub before : (k : ℕ) → k < first → heights k ≡ 0
  pub starts : heights first ≡ base
  pub positive : 0 < base
  pub in_order : first ≤ last
  pub grown : (k : ℕ) → last ≤ k → base + delta ≤ heights k

module _ (chain : ℕ → Answer) (delta : ℕ) where
  step_zero :
      (fuel round : ℕ) (h : Height)
      → behind h delta ≡ true
      → chain round ≡ height 0
      → wait_for_delta chain (suc fuel) round delta h
        ≡ wait_for_delta chain fuel (suc round) delta h
  unfolding wait_for_delta
  step_zero fuel round h b c = rw (b, c) refl

  step_height :
      (fuel round v : ℕ) (h : Height)
      → behind h delta ≡ true
      → chain round ≡ height v
      → 0 < v
      → wait_for_delta chain (suc fuel) round delta h
        ≡ wait_for_delta chain fuel (suc round) delta (update v h)
  unfolding wait_for_delta
  step_height fuel round zero h b c p = absurd (omega arith)
  step_height fuel round (suc v) h b c p = rw (b, c) refl

  stop :
      (fuel round : ℕ) (h : Height)
      → behind h delta ≡ false
      → wait_for_delta chain (suc fuel) round delta h ≡ reached h
  unfolding wait_for_delta
  stop fuel round h b = rw b

  -- The loop returned, at heights that are far enough apart.
  abbrev pub Returns : ℕ → WaitResult → Type 0
  Returns base r =
      (cur : ℕ) × (r ≡ reached (record { starting = base; current = cur })) × (base + delta ≤ cur)

  stop_pos :
      (fuel round : ℕ) (h : Height)
      → 0 < fuel
      → behind h delta ≡ false
      → wait_for_delta chain fuel round delta h ≡ reached h
  stop_pos zero round h p b = absurd (omega arith)
  stop_pos (suc fuel) round h p b = stop fuel round h b

  module _ (first last base : ℕ) (g : Grows chain delta first last base) where
    abbrev at : ℕ → Height
    at cur = record { starting = base; current = cur }

    behind_at : (cur : ℕ) → behind (at cur) delta ≡ ltb cur (base + delta)
    unfolding behind
    behind_at cur = ground (arith, g.positive)

    update_at : (v cur : ℕ) → update v (at cur) ≡ at v
    unfolding update
    update_at v cur = ground (arith, g.positive)

    after_start :
        (fuel round cur : ℕ)
        → round ≤ last
        → last + 2 ≤ fuel + round
        → Returns base (wait_for_delta chain fuel round delta (at cur))
    after_start zero round cur le f = absurd (omega arith)
    after_start (suc fuel) round cur le f = elim (Bool-cases (behind (at cur) delta)) [
      | inr done ↦ (cur, stop fuel round (at cur) done, ground (arith, behind_at cur))
      | inl more ↦ elim (ℕ_discrete round last) [
        | yes eq ↦
            let v = g.heights round in
            let enough : base + delta ≤ v = g.grown round (omega arith) in
            let positive : 0 < v = omega (arith, g.positive) in
            (
              v,
              step_height fuel round v (at cur) more (g.answers round) positive
                  ∙ ap (wait_for_delta chain fuel (suc round) delta) (update_at v cur)
                  ∙ stop_pos fuel (suc round) (at v) (omega arith) (ground (arith, behind_at v)),
              enough,
            )
        | no ne ↦ elim (ℕ_discrete 0 (g.heights round)) [
          | yes z ↦
              rw (step_zero fuel round (at cur) more (g.answers round ∙ ap height (sym z)))
                (after_start fuel (suc round) cur (omega arith) (omega arith))
          | no nonzero ↦
              let v = g.heights round in
              rw
                (step_height fuel round v (at cur) more (g.answers round) (omega arith)
                  ∙ ap (wait_for_delta chain fuel (suc round) delta) (update_at v cur))
                (after_start fuel (suc round) v (omega arith) (omega arith))
        ]
      ]
    ]

    before_start :
        (fuel round : ℕ)
        → 0 < delta
        → round ≤ first
        → last + 2 ≤ fuel + round
        → Returns base (wait_for_delta chain fuel round delta fresh)
    unfolding behind update
    before_start zero round d le f = absurd (omega (arith, g.in_order))
    before_start (suc fuel) round d le f = elim (ℕ_discrete round first) [
      | yes eq ↦
          let v : g.heights round ≡ base = rw eq g.starts in
          let lt : first < last = ground (arith, g.in_order, g.grown first, g.starts) in
          rw
            (step_height fuel round base fresh (ground arith) (g.answers round ∙ ap height v)
              g.positive)
            (after_start fuel (suc round) base (omega arith) (omega arith))
      | no ne ↦
          rw
            (step_zero fuel round fresh (ground arith)
              (g.answers round ∙ ap height (g.before round (omega arith))))
            (before_start fuel (suc round) d (omega arith) (omega arith))
    ]

  -- On a chain that answers, starts and grows far enough, with two rounds of fuel more than the
  -- number of the question from which it has grown, waiting for a positive delta returns: it started
  -- from the first height that was not 0, and the last height seen is at least delta blocks further.
  pub wait_for_delta-Returns :
      (fuel first last base : ℕ)
      → Grows chain delta first last base
      → 0 < delta
      → last + 2 ≤ fuel
      → Returns base (wait_for_delta chain fuel 0 delta fresh)
  wait_for_delta-Returns fuel first last base g d f =
      before_start first last base g fuel 0 d (omega arith) (omega arith)
