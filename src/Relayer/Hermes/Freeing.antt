-- ===== src/Relayer/Hermes/Freeing.antt =====
-- Actions of the hermes relayer that give back the locks that they take.
use interchaintest.Base.{
  String, Map, Bool, ◌≡◌, refl, sym, ap, ◌∙◌, true, false, some, lookup, assign, lookup-assign,
  arith, subst, nat_eq, string_eq,
}
use interchaintest.Base.Actions.{
  Ended, Action, done, fails, panics, blocks, continue, ◌>>=◌, ◌>>◌, Returns, prefixed, wrapping,
}
use interchaintest.Relayer.Hermes.{
  PathConfiguration, Hermes, finally, deferring, lock, unlock, with_path,
}
use interchaintest.Relayer.Hermes.Keeping.{locks_of, AreFree, KeepsLocks}
use interchaintest.Relayer.Hermes.Locks.{lock_free, with_path-AreFree}

-- From free locks to free locks, where the action returns.
pub record LeavesFree {A : Type 0} (m : Action Hermes A) : Type 0 where
  pub leaves : (h : Hermes) → AreFree (locks_of h) → Returns (m h).0 → AreFree (locks_of (m h).1)

pub KeepsLocks-LeavesFree : {A : Type 0} {m : Action Hermes A} → KeepsLocks m → LeavesFree m
KeepsLocks-LeavesFree k = record { leaves = λ h f r. subst AreFree (sym (k.keeps h)) f }

continue-free :
    {A B : Type 0} (x : Ended A × Hermes) (f : A → Action Hermes B)
    → (Returns x.0 → AreFree (locks_of x.1))
    → ((a : A) → LeavesFree (f a))
    → Returns (continue x f).0
    → AreFree (locks_of (continue x f).1)
continue-free (done a, h) f k l r = (l a).leaves h (k tt) r
continue-free (fails e, h) f k l r = k tt
continue-free (panics, h) f k l r = absurd r
continue-free (blocks, h) f k l r = absurd r

pub >>=-LeavesFree :
    {A B : Type 0} {m : Action Hermes A} {f : A → Action Hermes B}
    → LeavesFree m
    → ((a : A) → LeavesFree (f a))
    → LeavesFree (m >>= f)
>>=-LeavesFree {A} {B} {m} {f} k l = record {
  leaves = λ h q. continue-free (m h) f (k.leaves h q) l;
}

pub >>-LeavesFree :
    {A B : Type 0} {m : Action Hermes A} {k : Action Hermes B}
    → LeavesFree m
    → LeavesFree k
    → LeavesFree (m >> k)
>>-LeavesFree {A} {B} {m} {k} p q = record {
  leaves = λ h f. continue-free (m h) (λ _. k) (p.leaves h f) (λ a. q);
}

pub wrapping-LeavesFree :
    {A : Type 0} (g : String → String) {m : Action Hermes A}
    → LeavesFree m
    → LeavesFree (wrapping g m)
wrapping-LeavesFree {A} g {m} k = record { leaves = λ h q. prefixed-free (m h) (k.leaves h q) }
  where
    prefixed-free :
        (x : Ended A × Hermes)
        → (Returns x.0 → AreFree (locks_of x.1))
        → Returns (prefixed g x).0
        → AreFree (locks_of (prefixed g x).1)
    prefixed-free (done a, h) k r = k tt
    prefixed-free (fails e, h) k r = k tt
    prefixed-free (panics, h) k r = absurd r
    prefixed-free (blocks, h) k r = absurd r

finally-unlock :
    {A : Type 0} (x : Ended A × Hermes)
    → (Returns x.0 → AreFree (locks_of (unlock x.1)))
    → Returns (finally unlock x).0
    → AreFree (locks_of (finally unlock x).1)
finally-unlock (done a, h) k r = k tt
finally-unlock (fails e, h) k r = k tt
finally-unlock (panics, h) k r = absurd r
finally-unlock (blocks, h) k r = absurd r

-- Under the write lock.
pub locked-LeavesFree :
    {A : Type 0} (m : Action Hermes A)
    → ((h : Hermes)
        → AreFree (locks_of (unlock h))
        → Returns (m h).0
        → AreFree (locks_of (unlock (m h).1)))
    → LeavesFree (lock >> deferring unlock m)
locked-LeavesFree m k = record {
  leaves = λ h f.
      let h1 : Hermes = record h { writer = true } in
      subst
        (λ x.
          Returns (continue x (λ u. deferring unlock m)).0
          → AreFree (locks_of (continue x (λ u. deferring unlock m)).1))
        (sym (lock_free h f.0 f.1)) (finally-unlock (m h1) (k h1 (refl, f.1, f.2)));
}

pub assign-free :
    (a id : String) (v : Bool) (m : Map String Bool)
    → (lookup id m ≡ some v → v ≡ false)
    → lookup id (assign a false m) ≡ some v
    → v ≡ false
assign-free a id v m free h = ground (arith, lookup-assign a id false m)

pub locked-KeepsLocks :
    {A : Type 0} {m : Action Hermes A} → KeepsLocks m → LeavesFree (lock >> deferring unlock m)
locked-KeepsLocks {A} {m} k = locked-LeavesFree m (λ h f r. (
  refl,
  ap (λ l. l.1) (k.keeps h) ∙ f.1,
  λ id v q. f.2 id v (subst (λ m. lookup id m ≡ some v) (ap (λ l. l.2) (k.keeps h)) q),
))

pub with_path-LeavesFree :
    {A : Type 0} (name : String) {body : PathConfiguration → Action Hermes A}
    → ((p : PathConfiguration) → KeepsLocks (body p))
    → LeavesFree (with_path name body)
with_path-LeavesFree {A} name {body} k = record { leaves = with_path-AreFree name body k }
