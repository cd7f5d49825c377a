-- ===== src/ChainSet/Order.antt =====
-- The order in which the chains of a set are started.
use interchaintest.Base.{
  ℕ, ◌≡◌, refl, sym, ap, ◌∙◌, ◌⊎◌, inl, inr, Bool, true, false, not, ◌&&◌, none, List, [], ◌∷◌,
  if◌then◌else◌, Bool-cases, Option-cases, All, All-weaken, Map, subst, get_list, nat_eq, string_eq,
}
use interchaintest.Base.Actions.{Ended, Action, done, fails, panics, blocks, continue, both}
use interchaintest.Base.Keeping.{Keeps}
use interchaintest.Interchain.{WalletAmount}
use interchaintest.ChainSet.{
  SetChain, start_consumer, start_provider, start_chain, initialize, build_wallet, Calls, Chains,
  is_consumer, group, call, start_call, start_one, start_if, start,
}

-- What holds where a group is done.
abbrev IfDone : Ended (Unit {0}) → Type 0 → Type 0
IfDone (done u) A = A
IfDone (fails e) A = Unit
IfDone panics A = Unit
IfDone blocks A = Unit

both-IfDone :
    {A B C : Type 0} (r r' : Ended (Unit {0}))
    → IfDone r A
    → IfDone r' B
    → (A → B → C)
    → IfDone (both r r') C
both-IfDone (done u) (done v) a b k = k a b
both-IfDone (done u) (fails e) a b k = tt
both-IfDone (done u) panics a b k = tt
both-IfDone (done u) blocks a b k = tt
both-IfDone (fails e) (done u) a b k = tt
both-IfDone (fails e) (fails f) a b k = tt
both-IfDone (fails e) panics a b k = tt
both-IfDone (fails e) blocks a b k = tt
both-IfDone panics r a b k = tt
both-IfDone blocks r a b k = tt

module _ {S : Type 0} (m : SetChain → Action S (Unit {0})) where
  group-Keeps :
      (P : S → Type 0)
      → ((c : SetChain) → Keeps P (m c))
      → (cs : List SetChain) → Keeps P (group m cs)
  unfolding group
  group-Keeps P k [] s p = p
  group-Keeps P k (c ∷ cs) s p = group-Keeps P k cs (m c s).1 (k c s p)

  -- What each call establishes and the others keep holds of all.
  group-All :
      (Q : SetChain → S → Type 0)
      → ((c : SetChain) (s : S) → IfDone (m c s).0 (Q c (m c s).1))
      → ((c d : SetChain) → Keeps (Q c) (m d))
      → (cs : List SetChain) (s : S) → IfDone (group m cs s).0 (All (λ c. Q c (group m cs s).1) cs)
  unfolding group
  group-All Q e k [] s = tt
  group-All Q e k (c ∷ cs) s =
      both-IfDone (m c s).0 (group m cs (m c s).1).0 (e c s) (group-All Q e k cs (m c s).1)
        (λ q a. (group-Keeps (Q c) (k c) cs (m c s).1 q, a))

module _ (chains : Chains) (wallets : Map ℕ (List WalletAmount)) (cs : List SetChain) where
  -- The start of a chain is among the calls, and had no error.
  abbrev pub Started : SetChain → Calls → Type 0
  Started d [] = ⊥
  Started d (c ∷ before) =
      ((c ≡ start_call chains wallets d) × (chains.fault before c ≡ none)) ⊎ Started d before

  abbrev pub OthersStarted : Calls → Type 0
  OthersStarted before = All (λ d. is_consumer d ≡ false → Started d before) cs

  -- Before each start of a consumer, all the other chains were started with no error.
  abbrev pub ConsumersLast : Calls → Type 0
  ConsumersLast [] = Unit
  ConsumersLast (start_consumer r w ∷ before) = OthersStarted before × ConsumersLast before
  ConsumersLast (start_provider r w ∷ before) = ConsumersLast before
  ConsumersLast (start_chain r w ∷ before) = ConsumersLast before
  ConsumersLast (initialize r ∷ before) = ConsumersLast before
  ConsumersLast (build_wallet r ∷ before) = ConsumersLast before

  start_one-calls :
      (c : SetChain) (s : Calls)
      → (start_one chains wallets c s).1 ≡ start_call chains wallets c ∷ s
  unfolding start_one call
  start_one-calls c s = elim (Option-cases (chains.fault s (start_call chains wallets c))) [
    | inl e ↦ rw (e, start_one, call) refl
    | inr (x, e) ↦ rw (e, start_one, call) refl
  ]

  start_one-Started :
      (c : SetChain) (s : Calls)
      → IfDone (start_one chains wallets c s).0 (Started c (start_one chains wallets c s).1)
  unfolding start_one call
  start_one-Started c s = elim (Option-cases (chains.fault s (start_call chains wallets c))) [
    | inl e ↦ rw (e, start_one, call) (inl (refl, e))
    | inr (x, e) ↦ rw (e, start_one, call) tt
  ]

  later-Started :
      (d : SetChain) (b : Bool) (c : SetChain) → Keeps (Started d) (start_if chains wallets b c)
  unfolding start_if
  later-Started d true c s p = subst (Started d) (sym (start_one-calls c s)) (inr p)
  later-Started d false c s p = p

  later-OthersStarted :
      (b : Bool) (c : SetChain) → Keeps OthersStarted (start_if chains wallets b c)
  later-OthersStarted b c s p = All-weaken (λ d q n. later-Started d b c s (q n)) cs p

  -- A chain that is no consumer is started by another call.
  not_consumer :
      (c : SetChain) (s : Calls)
      → is_consumer c ≡ false
      → ConsumersLast s
      → ConsumersLast (start_call chains wallets c ∷ s)
  unfolding start_call
  not_consumer c s n p = elim (Bool-cases (c.is_cosmos && c.has_consumers)) [
    | inl e ↦ rw (n, start_call) (rw (e, start_call) p)
    | inr e ↦ rw (n, start_call) (rw (e, start_call) p)
  ]

  others_at :
      (b : Bool) (c : SetChain) (s : Calls)
      → is_consumer c ≡ b
      → ConsumersLast s
      → ConsumersLast (start_if chains wallets (not b) c s).1
  unfolding start_if
  others_at true c s e p = p
  others_at false c s e p = subst ConsumersLast (sym (start_one-calls c s)) (not_consumer c s e p)

  others-Keeps :
      (c : SetChain) → Keeps ConsumersLast (start_if chains wallets (not (is_consumer c)) c)
  others-Keeps c s p = others_at (is_consumer c) c s refl p

  at_test-Started :
      (b : Bool) (c : SetChain) (s : Calls)
      → IfDone
          (start_if chains wallets (not b) c s).0
          (b ≡ false → Started c (start_if chains wallets (not b) c s).1)
  unfolding start_if
  at_test-Started true c s = λ n. absurd (cc)
  at_test-Started false c s = given (start_one chains wallets c s) (start_one-Started c s)
    where
      given :
          (x : Ended (Unit {0}) × Calls)
          → IfDone x.0 (Started c x.1)
          → IfDone x.0 (false ≡ false → Started c x.1)
      given (done u, t) q = λ n. q
      given (fails e, t) q = tt
      given (panics, t) q = tt
      given (blocks, t) q = tt

  others-Started :
      (c : SetChain) (s : Calls)
      → IfDone
          (start_if chains wallets (not (is_consumer c)) c s).0
          (is_consumer c ≡ false → Started c (start_if chains wallets (not (is_consumer c)) c s).1)
  others-Started c s = at_test-Started (is_consumer c) c s

  abbrev Both : Calls → Type 0
  Both s = OthersStarted s × ConsumersLast s

  start_call_consumer :
      (c : SetChain)
      → is_consumer c ≡ true
      → start_call chains wallets c ≡ start_consumer c.ref (get_list c.ref wallets)
  unfolding start_call
  start_call_consumer c e =
      let own = get_list c.ref wallets in
      ap
        (λ b.
          if b
          then start_consumer c.ref own
          else if c.is_cosmos && c.has_consumers
          then start_provider c.ref own
          else start_chain c.ref own)
        e

  consumers_at :
      (b : Bool) (c : SetChain) (s : Calls)
      → is_consumer c ≡ b
      → Both s
      → ConsumersLast (start_if chains wallets b c s).1
  unfolding start_if
  consumers_at true c s e (p, q) =
      subst ConsumersLast (sym (start_one-calls c s ∙ ap (λ k. k ∷ s) (start_call_consumer c e)))
        (p, q)
  consumers_at false c s e (p, q) = q

  consumers-Keeps : (c : SetChain) → Keeps Both (start_if chains wallets (is_consumer c) c)
  consumers-Keeps c s (p, q) =
      (later-OthersStarted (is_consumer c) c s p, consumers_at (is_consumer c) c s refl (p, q))

  -- However a start of the set ends, no consumer was started before all the other chains of the set
  -- had been started with no error.
  pub start-ConsumersLast : ConsumersLast (start chains wallets cs []).1
  unfolding start
  start-ConsumersLast =
      second (group others cs []) (group-Keeps others ConsumersLast others-Keeps cs [] tt) (
        group-All others (λ c s. is_consumer c ≡ false → Started c s) others-Started
          (λ c d s p n. later-Started c (not (is_consumer d)) d s (p n)) cs [])
    where
      others : SetChain → Action Calls (Unit {0})
      others c = start_if chains wallets (not (is_consumer c)) c

      second :
          (x : Ended (Unit {0}) × Calls)
          → ConsumersLast x.1
          → IfDone x.0 (OthersStarted x.1)
          → ConsumersLast
              (continue x (λ u. group (λ c. start_if chains wallets (is_consumer c) c) cs)).1
      second (done u, s) p a =
          (group-Keeps (λ c. start_if chains wallets (is_consumer c) c) Both consumers-Keeps cs s
            (a, p)).1
      second (fails e, s) p a = p
      second (panics, s) p a = p
      second (blocks, s) p a = p
