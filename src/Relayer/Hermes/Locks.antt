-- ===== src/Relayer/Hermes/Locks.antt =====
-- The locks of the hermes relayer and of the chains: taking them, and giving them back.
use interchaintest.Base.{
  ◌+◌, ℕ, String, ◌≡◌, refl, sym, ap, ◌∙◌, ◌⊎◌, inl, inr, Bool, true, false, not, ◌||◌, some, arith,
  if◌then◌else◌, Option-cases, ◌==◌, Map, lookup, assign, lookup-assign, subst, nat_eq, string_eq,
}
use interchaintest.Base.Actions.{
  Ended, Action, done, fails, panics, blocks, continue, ◌>>◌, return, Returns,
}
use interchaintest.Relayer.Hermes.{
  r_lock, PathConfiguration, Hermes, finally, deferring, lock, unlock, lock_chain, unlock_chains,
  lock_ends, found_path, get_and_lock_path, with_path,
}
use interchaintest.Relayer.Hermes.Keeping.{Locks, locks_of, AreFree, KeepsLocks}

-- The locks of a path's ends.
abbrev pub held : PathConfiguration → Hermes → Hermes
held p h = record h {
  writer = false;
  chain_locks = assign p.chain_b.chain_id true (assign p.chain_a.chain_id true h.chain_locks);
}

-- Two different chains that the relayer knows, whose locks are free.
abbrev pub IsReady : PathConfiguration → Locks → Type 0
IsReady p (w, r, m) =
    (w ≡ false)
    × (r ≡ 0)
    × ((p.chain_a.chain_id == p.chain_b.chain_id) ≡ false)
    × (lookup p.chain_a.chain_id m ≡ some false)
    × (lookup p.chain_b.chain_id m ≡ some false)

pub lock_free :
    (h : Hermes) → h.writer ≡ false → h.readers ≡ 0 → lock h ≡ (done tt, record h { writer = true })
unfolding lock
lock_free h w r =
    ap (λ b. if b then (blocks, h) else (done tt, record h { writer = true }))
      (e h.writer h.readers w r)
  where
    e : (w : Bool) (r : ℕ) → w ≡ false → r ≡ 0 → (w || not (r == 0)) ≡ false
    e w r p q = ground arith

pub r_lock_free :
    (h : Hermes) → h.writer ≡ false → r_lock h ≡ (done tt, record h { readers = h.readers + 1 })
unfolding r_lock
r_lock_free h w =
    ap (λ b. if b then (blocks, h) else (done tt, record h { readers = h.readers + 1 })) w

released :
    (a b id : String) (v : Bool) (m : Map String Bool)
    → (lookup id m ≡ some v → v ≡ false)
    → lookup id (assign b false (assign a false (assign b true (assign a true m)))) ≡ some v
    → v ≡ false
released a b id v m free h = ground (
  arith,
  lookup-assign b id false (assign a false (assign b true (assign a true m))),
  lookup-assign a id false (assign b true (assign a true m)),
  lookup-assign b id true (assign a true m),
  lookup-assign a id true m,
)

-- The locks of both ends are taken, or the action does not return.
lock_chain-cases :
    (id : String) (h : Hermes)
    → (Returns (lock_chain id h).0 → ⊥)
      ⊎ (lock_chain id h ≡ (done tt, record h { chain_locks = assign id true h.chain_locks }))
unfolding lock_chain
lock_chain-cases id h = elim (Option-cases (lookup id h.chain_locks)) [
  | inl e ↦ inl (rw (e, lock_chain) (λ r. r))
  | inr (true, e) ↦ inl (rw (e, lock_chain) (λ r. r))
  | inr (false, e) ↦ inr (rw (e, lock_chain) refl)
]

pub continue-not :
    {A B : Type 0} (x : Ended A × Hermes) (f : A → Action Hermes B)
    → (Returns x.0 → ⊥)
    → Returns (continue x f).0
    → ⊥
continue-not (done a, h) f n r = n tt
continue-not (fails e, h) f n r = n tt
continue-not (panics, h) f n r = r
continue-not (blocks, h) f n r = r

finally-not :
    {A : Type 0} (f : Hermes → Hermes) (x : Ended A × Hermes)
    → (Returns x.0 → ⊥)
    → Returns (finally f x).0
    → ⊥
finally-not f (done a, h) n r = n tt
finally-not f (fails e, h) n r = n tt
finally-not f (panics, h) n r = r
finally-not f (blocks, h) n r = r

pub Returns-finally :
    {A : Type 0} (f : Hermes → Hermes) (x : Ended A × Hermes)
    → Returns (finally f x).0
    → Returns x.0
Returns-finally f (done a, h) r = tt
Returns-finally f (fails e, h) r = tt
Returns-finally f (panics, h) r = r
Returns-finally f (blocks, h) r = r

lock_ends-cases :
    (p : PathConfiguration) (h : Hermes)
    → (Returns (lock_ends p h).0 → ⊥)
      ⊎ (lock_ends p h ≡ (
        done p,
        record h {
          chain_locks =
              assign p.chain_b.chain_id true (assign p.chain_a.chain_id true h.chain_locks);
        },
      ))
lock_ends-cases p h = elim (lock_chain-cases p.chain_a.chain_id h) [
  | inl n ↦ inl (continue-not (lock_chain p.chain_a.chain_id h) _ n)
  | inr e ↦
      let h1 : Hermes = record h { chain_locks = assign p.chain_a.chain_id true h.chain_locks } in
      let step = ap (λ x. continue x (λ u. lock_chain p.chain_b.chain_id >> return p)) e in
      elim (lock_chain-cases p.chain_b.chain_id h1) [
        | inl n ↦ inl (
            subst (λ x. Returns x.0 → ⊥) (sym step)
              (continue-not (lock_chain p.chain_b.chain_id h1) _ n))
        | inr e1 ↦ inr (step ∙ ap (λ x. continue x (λ u. return p)) e1)
      ]
]

finally-AreFree :
    {A : Type 0} (p : PathConfiguration) (h : Hermes) (x : Ended A × Hermes)
    → locks_of x.1 ≡ locks_of (held p h)
    → AreFree (locks_of h)
    → Returns x.0
    → AreFree (locks_of (finally (unlock_chains p) x).1)
finally-AreFree p h (done a, s) e (w, r, free) k = (
  ap (λ l. l.0) e,
  ap (λ l. l.1) e ∙ r,
  λ id v q. released p.chain_a.chain_id p.chain_b.chain_id id v h.chain_locks (free id v) (
      subst
        (λ m.
          lookup id (assign p.chain_b.chain_id false (assign p.chain_a.chain_id false m)) ≡ some v)
        (ap (λ l. l.2) e) q),
)
finally-AreFree p h (fails a, s) e (w, r, free) k = (
  ap (λ l. l.0) e,
  ap (λ l. l.1) e ∙ r,
  λ id v q. released p.chain_a.chain_id p.chain_b.chain_id id v h.chain_locks (free id v) (
      subst
        (λ m.
          lookup id (assign p.chain_b.chain_id false (assign p.chain_a.chain_id false m)) ≡ some v)
        (ap (λ l. l.2) e) q),
)
finally-AreFree p h (panics, s) e f k = absurd k
finally-AreFree p h (blocks, s) e f k = absurd k

pub get_and_lock_free :
    (name : String) (h : Hermes)
    → AreFree (locks_of h)
    → get_and_lock_path name h
      ≡ finally unlock (found_path name (lookup name h.paths) (record h { writer = true }))
unfolding get_and_lock_path
get_and_lock_free name h f =
    ap (λ x. continue x (λ u. deferring unlock (λ h'. found_path name (lookup name h'.paths) h')))
      (lock_free h f.0 f.1)

module _ {A : Type 0} (name : String) (body : PathConfiguration → Action Hermes A) where
  pub with_path_step :
      (h : Hermes)
      → AreFree (locks_of h)
      → with_path name body h
        ≡ continue
            (finally unlock (found_path name (lookup name h.paths) (record h { writer = true })))
            (λ p. deferring (unlock_chains p) (body p))
  unfolding with_path
  with_path_step h f =
      ap (λ x. continue x (λ p. deferring (unlock_chains p) (body p))) (get_and_lock_free name h f)

  pub with_path-found :
      (h : Hermes) (p : PathConfiguration)
      → AreFree (locks_of h)
      → lookup name h.paths ≡ some p
      → (Returns (with_path name body h).0 → ⊥)
        ⊎ (with_path name body h ≡ finally (unlock_chains p) (body p (held p h)))
  with_path-found h p f e =
      let rest : PathConfiguration → Action Hermes A = λ q. deferring (unlock_chains q) (body q) in
      let h1 : Hermes = record h { writer = true } in
      let step =
        with_path_step h f ∙ ap (λ o. continue (finally unlock (found_path name o h1)) rest) e in
      elim (lock_ends-cases p h1) [
        | inl n ↦ inl (
            subst (λ x. Returns x.0 → ⊥) (sym step)
              (continue-not (finally unlock (lock_ends p h1)) rest
                (finally-not unlock (lock_ends p h1) n)))
        | inr q ↦ inr (step ∙ ap (λ x. continue (finally unlock x) rest) q)
      ]

  pub with_path-AreFree :
      ((p : PathConfiguration) → KeepsLocks (body p))
      → (h : Hermes) → AreFree (locks_of h)
      → Returns (with_path name body h).0
      → AreFree (locks_of (with_path name body h).1)
  with_path-AreFree k h f r = elim (Option-cases (lookup name h.paths)) [
    | inl e ↦
        subst (λ x. AreFree (locks_of x.1))
          (sym (
            with_path_step h f
            ∙ ap
                (λ o.
                  continue (finally unlock (found_path name o (record h { writer = true })))
                    (λ p. deferring (unlock_chains p) (body p)))
                e))
          (refl, f.1, f.2)
    | inr (p, e) ↦ elim (with_path-found h p f e) [
      | inl n ↦ absurd (n r)
      | inr q ↦
          subst (λ x. AreFree (locks_of x.1)) (sym q)
            (finally-AreFree p h (body p (held p h)) ((k p).keeps (held p h)) f (
              Returns-finally (unlock_chains p) (body p (held p h)) (subst (λ x. Returns x.0) q r)))
    ]
  ]
