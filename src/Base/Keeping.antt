-- ===== src/Base/Keeping.antt =====
-- What an action keeps, however it ends, and what holds where it returns a result.
use interchaintest.Base.Actions.{Ended, Action, done, fails, panics, blocks, continue, prefixed}
use Prim.Native.String.{String}
use mathlib.Core.Path.{◌≡◌, ap}

module _ {S : Type 0} (P : S → Type 0) where
  abbrev pub Keeps : {A : Type 0} → Action S A → Type 0
  Keeps m = (s : S) → P s → P (m s).1

  pub continue-Keeps :
      {A B : Type 0} (x : Ended A × S) (f : A → Action S B)
      → P x.1
      → ((a : A) → Keeps (f a))
      → P (continue x f).1
  continue-Keeps (done a, s) f p k = k a s p
  continue-Keeps (fails e, s) f p k = p
  continue-Keeps (panics, s) f p k = p
  continue-Keeps (blocks, s) f p k = p

  pub prefixed-Keeps :
      {A : Type 0} (f : String → String) (x : Ended A × S) → P x.1 → P (prefixed f x).1
  prefixed-Keeps f (done a, s) p = p
  prefixed-Keeps f (fails e, s) p = p
  prefixed-Keeps f (panics, s) p = p
  prefixed-Keeps f (blocks, s) p = p

  -- It holds of the state that a result is returned in.
  abbrev pub OnDone : {A : Type 0} → Ended A × S → Type 0
  OnDone (done a, s) = P s
  OnDone (fails e, s) = Unit
  OnDone (panics, s) = Unit
  OnDone (blocks, s) = Unit

  pub continue-OnDone :
      {A B : Type 0} (x : Ended A × S) (f : A → Action S B)
      → ((a : A) (s : S) → OnDone (f a s))
      → OnDone (continue x f)
  continue-OnDone (done a, s) f k = k a s
  continue-OnDone (fails e, s) f k = tt
  continue-OnDone (panics, s) f k = tt
  continue-OnDone (blocks, s) f k = tt

  pub Keeps-OnDone : {A : Type 0} (x : Ended A × S) → P x.1 → OnDone x
  Keeps-OnDone (done a, s) p = p
  Keeps-OnDone (fails e, s) p = tt
  Keeps-OnDone (panics, s) p = tt
  Keeps-OnDone (blocks, s) p = tt

  -- What follows keeps what was established.
  pub continue_last-OnDone :
      {A B : Type 0} (x : Ended A × S) (f : A → Action S B)
      → OnDone x
      → ((a : A) → Keeps (f a))
      → OnDone (continue x f)
  continue_last-OnDone (done a, s) f p k = Keeps-OnDone (f a s) (k a s p)
  continue_last-OnDone (fails e, s) f p k = tt
  continue_last-OnDone (panics, s) f p k = tt
  continue_last-OnDone (blocks, s) f p k = tt

  pub prefixed-OnDone :
      {A : Type 0} (f : String → String) (x : Ended A × S) → OnDone x → OnDone (prefixed f x)
  prefixed-OnDone f (done a, s) p = p
  prefixed-OnDone f (fails e, s) p = tt
  prefixed-OnDone f (panics, s) p = tt
  prefixed-OnDone f (blocks, s) p = tt

-- It holds of the result, and of the state that it is returned in.
abbrev pub Delivers : {S A : Type 0} → (A → S → Type 0) → Ended A × S → Type 0
Delivers P (done a, s) = P a s
Delivers P (fails e, s) = Unit
Delivers P (panics, s) = Unit
Delivers P (blocks, s) = Unit

module _ {S A B : Type 0} (P : B → S → Type 0) where
  pub continue-Delivers :
      (Q : A → S → Type 0) (x : Ended A × S) (f : A → Action S B)
      → Delivers Q x
      → ((a : A) (s : S) → Q a s → Delivers P (f a s))
      → Delivers P (continue x f)
  continue-Delivers Q (done a, s) f q k = k a s q
  continue-Delivers Q (fails e, s) f q k = tt
  continue-Delivers Q (panics, s) f q k = tt
  continue-Delivers Q (blocks, s) f q k = tt

pub result_of : {A : Type 0} {a b : A} → done a ≡ done b → a ≡ b
result_of {A} {a} q = ap (λ x. elim x [ done c ↦ c | fails e ↦ a | panics ↦ a | blocks ↦ a ]) q
