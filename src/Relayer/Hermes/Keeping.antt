-- ===== src/Relayer/Hermes/Keeping.antt =====
-- Actions of the hermes relayer that leave the locks as they are.
use interchaintest.Base.{
  ℕ, String, ◌≡◌, refl, ◌∙◌, Bool, false, some, Map, lookup, nat_eq, string_eq,
}
use interchaintest.Base.Actions.{
  gets, modify, wrapping, prefixed, Ended, Action, done, fails, panics, blocks, continue, ◌>>=◌,
  ◌>>◌, return,
}
use interchaintest.Relayer.Types.{DockerRelayer}
use interchaintest.Relayer.Docker.{ended}
use interchaintest.Relayer.Hermes.{on_docker, write_path, PathConfiguration, Hermes}

-- The writer, the readers and the locks of the chains.
abbrev pub Locks : Type 0
Locks = Bool × ℕ × Map String Bool

abbrev pub locks_of : Hermes → Locks
locks_of h = (h.writer, h.readers, h.chain_locks)

-- Nobody holds a lock.
abbrev pub AreFree : Locks → Type 0
AreFree (w, r, m) =
    (w ≡ false) × (r ≡ 0) × ((id : String) (held : Bool) → lookup id m ≡ some held → held ≡ false)

-- The locks are left as they were found, however the action ends.
pub record KeepsLocks {A : Type 0} (m : Action Hermes A) : Type 0 where
  pub keeps : (h : Hermes) → locks_of (m h).1 ≡ locks_of h

continue-locks :
    {A B : Type 0} (x : Ended A × Hermes) (f : A → Action Hermes B)
    → ((a : A) → KeepsLocks (f a))
    → locks_of (continue x f).1 ≡ locks_of x.1
continue-locks (done a, h) f k = (k a).keeps h
continue-locks (fails e, h) f k = refl
continue-locks (panics, h) f k = refl
continue-locks (blocks, h) f k = refl

pub >>=-KeepsLocks :
    {A B : Type 0} {m : Action Hermes A} {f : A → Action Hermes B}
    → KeepsLocks m
    → ((a : A) → KeepsLocks (f a))
    → KeepsLocks (m >>= f)
>>=-KeepsLocks {A} {B} {m} {f} k l = record { keeps = λ h. continue-locks (m h) f l ∙ k.keeps h }

pub >>-KeepsLocks :
    {A B : Type 0} {m : Action Hermes A} {k : Action Hermes B}
    → KeepsLocks m
    → KeepsLocks k
    → KeepsLocks (m >> k)
>>-KeepsLocks {A} {B} {m} {k} p q = record {
  keeps = λ h. continue-locks (m h) (λ _. k) (λ a. q) ∙ p.keeps h;
}

pub return-KeepsLocks : {A : Type 0} {a : A} → KeepsLocks (return a)
return-KeepsLocks = record { keeps = λ h. refl }

pub ended-KeepsLocks : {A : Type 0} {e : Ended A} → KeepsLocks (ended e)
ended-KeepsLocks = record { keeps = λ h. refl }

pub wrapping-KeepsLocks :
    {A : Type 0} (g : String → String) {m : Action Hermes A}
    → KeepsLocks m
    → KeepsLocks (wrapping g m)
wrapping-KeepsLocks {A} g {m} k = record { keeps = λ h. prefixed-locks (m h) ∙ k.keeps h }
  where
    prefixed-locks : (x : Ended A × Hermes) → locks_of (prefixed g x).1 ≡ locks_of x.1
    prefixed-locks (done a, h) = refl
    prefixed-locks (fails e, h) = refl
    prefixed-locks (panics, h) = refl
    prefixed-locks (blocks, h) = refl

pub gets-KeepsLocks : {A : Type 0} (f : Hermes → A) → KeepsLocks (gets f)
gets-KeepsLocks f = record { keeps = λ h. refl }

pub modify-KeepsLocks :
    (f : Hermes → Hermes) → ((h : Hermes) → locks_of (f h) ≡ locks_of h) → KeepsLocks (modify f)
modify-KeepsLocks f e = record { keeps = e }

pub on_docker-KeepsLocks : {A : Type 0} (m : Action DockerRelayer A) → KeepsLocks (on_docker m)
on_docker-KeepsLocks m = record { keeps = λ h. refl }

pub write_path-KeepsLocks : (name : String) (p : PathConfiguration) → KeepsLocks (write_path name p)
write_path-KeepsLocks name p = record { keeps = λ h. refl }
