-- ===== src/Testutil/Poll.antt =====
-- `BlockPoller` of testutil/poll_for_state.go. What the chain answers to the n-th question for its
-- height is a parameter, and so is the poll, which may keep notes in a state. Heights are natural
-- numbers. A loop that has used up its fuel is still running.
use interchaintest.Base.{
  ℕ, zero, suc, ◌+◌, ◌-◌, ◌≤◌, ◌<◌, ◌≡◌, refl, ◌⊎◌, inl, inr, Option, none, some, arith, ltb, leb,
  if◌then◌else◌, nat_eq,
}

pub data Answer {ℓ} (E T : Type ℓ) : Type ℓ where
  hit : T → Answer E T
  miss : E → Answer E T

pub data PollResult {ℓ} (E T : Type ℓ) : Type ℓ where
  found : T → PollResult E T
  not_found : Option E → PollResult E T
  height_error : E → PollResult E T
  bad_range : PollResult E T
  running : PollResult E T

pub Answer-cases {ℓ} :
    {E T : Type ℓ} (a : Answer E T) → ((e : E) × (a ≡ miss e)) ⊎ ((t : T) × (a ≡ hit t))
Answer-cases (hit t) = inr (t, refl)
Answer-cases (miss e) = inl (e, refl)

-- The chain answers every question, and from question `n` on its height is at least `h`.
pub record Reaches {E : Type 0} (current_height : ℕ → Answer E ℕ) (h n : ℕ) : Type 0 where
  pub height : ℕ → ℕ
  pub answers : (k : ℕ) → current_height k ≡ hit (height k)
  pub reached : (k : ℕ) → n ≤ k → h ≤ height k

module _ {E T S : Type 0} (poll_func : ℕ → S → Answer E T × S) where
  -- What a poll of every height in turn gives: the first hit of `n` heights from `cursor` on.
  unfoldable pub search_heights : ℕ → ℕ → Option E → S → PollResult E T × S
  search_heights zero cursor poll_err s = (not_found poll_err, s)
  search_heights (suc n) cursor poll_err s =
      let polled = poll_func cursor s in
      elim polled.0 [
        | miss e ↦ search_heights n (suc cursor) (some e) polled.1
        | hit t ↦ (found t, polled.1)
      ]

  pub search_heights-miss :
      (n cursor : ℕ) (old : Option E) (s : S) {e : E}
      → (poll_func cursor s).0 ≡ miss e
      → search_heights (suc n) cursor old s
        ≡ search_heights n (suc cursor) (some e) (poll_func cursor s).1
  unfolding search_heights
  search_heights-miss n cursor old s q = rw (q, search_heights)

  pub search_heights-hit :
      (n cursor : ℕ) (old : Option E) (s : S) {t : T}
      → (poll_func cursor s).0 ≡ hit t
      → search_heights (suc n) cursor old s ≡ (found t, (poll_func cursor s).1)
  unfolding search_heights
  search_heights-hit n cursor old s q = rw (q, search_heights)

module _ {E T S : Type 0} (current_height : ℕ → Answer E ℕ)
    (poll_func : ℕ → S → Answer E T × S) where
  -- The loop of `DoPoll`: `round` counts the questions asked, `cursor` is the height to look at.
  unfoldable pub poll_loop : ℕ → ℕ → ℕ → ℕ → Option E → S → PollResult E T × S
  poll_loop zero round cursor max_height poll_err s = (running, s)
  poll_loop (suc fuel) round cursor max_height poll_err s =
      if leb cursor max_height
      then (elim (current_height round) [
        | miss e ↦ (height_error e, s)
        | hit cur ↦
            let waiting = poll_loop fuel (suc round) cursor max_height poll_err s in
            let polled = poll_func cursor s in
            let answered = elim polled.0 as (λ _. PollResult E T × S) [
              | miss e ↦ poll_loop fuel (suc round) (suc cursor) max_height (some e) polled.1
              | hit t ↦ (found t, polled.1)
            ] in
            if ltb cur cursor then waiting else answered
      ])
      else (not_found poll_err, s)

  -- `(BlockPoller[T]).DoPoll`
  unfoldable pub do_poll : ℕ → ℕ → ℕ → S → PollResult E T × S
  unfolding poll_loop
  do_poll fuel start_height max_height s =
      let run = poll_loop fuel 0 start_height max_height none s in
      if ltb max_height start_height then (bad_range, s) else run

  poll_loop-eq-search :
      (fuel round cursor max_height n rest : ℕ) (poll_err : Option E) (s : S)
      → Reaches current_height max_height n
      → cursor + rest ≡ suc max_height
      → (n - round) + rest < fuel
      → poll_loop fuel round cursor max_height poll_err s
        ≡ search_heights poll_func rest cursor poll_err s
  unfolding poll_loop search_heights
  poll_loop-eq-search zero round cursor max n rest e s r eq lt = absurd (omega arith)
  poll_loop-eq-search (suc fuel) round cursor max n zero e s r eq lt = ground arith
  poll_loop-eq-search (suc fuel) round cursor max n (suc rest) e s r eq lt =
      elim (Answer-cases (poll_func cursor s).0) [
        | inl (e', q) ↦ ground (
          arith,
          q,
          r.answers round,
          r.reached round,
          poll_loop-eq-search fuel (suc round) cursor max n (suc rest) e s r eq,
          poll_loop-eq-search fuel (suc round) (suc cursor) max n rest (some e')
              (poll_func cursor s).1 r,
        )
        | inr (t, q) ↦ ground (
          arith,
          q,
          r.answers round,
          r.reached round,
          poll_loop-eq-search fuel (suc round) cursor max n (suc rest) e s r eq,
        )
      ]

  -- On a chain that answers and that reaches the last height, with fuel for the questions that may
  -- be asked before and for one question a height, polling ends, and its result and its notes are
  -- those of looking at every height of the range in turn.
  pub do_poll-eq-search :
      (fuel start_height max_height n : ℕ) (s : S)
      → start_height ≤ max_height
      → Reaches current_height max_height n
      → n + (suc max_height - start_height) < fuel
      → do_poll fuel start_height max_height s
        ≡ search_heights poll_func (suc max_height - start_height) start_height none s
  unfolding do_poll
  do_poll-eq-search fuel start max n s le r lt = ground (
    arith,
    poll_loop-eq-search fuel 0 start max n (suc max - start) none s r (omega arith) (omega arith),
  )
