-- ===== src/Base/Actions.antt =====
-- Methods on a state, with the ways in which Go code ends: a result, an error (its text), a panic,
-- or a wait that nothing can end. What was written before stays written.
use Prim.Native.String.{String}
use mathlib.Core.Option.{Option, none, some}

pub data Ended (A : Type 0) : Type 0 where
  done : A → Ended A
  fails : String → Ended A
  panics : Ended A
  blocks : Ended A

abbrev pub Action : Type 0 → Type 0 → Type 0
Action S A = S → Ended A × S

module _ {S A B : Type 0} where
  abbrev pub continue : Ended A × S → (A → Action S B) → Ended B × S
  continue (done a, s) f = f a s
  continue (fails e, s) f = (fails e, s)
  continue (panics, s) f = (panics, s)
  continue (blocks, s) f = (blocks, s)

  infixl 5 ◌>>=◌ ◌>>◌
  abbrev pub ◌>>=◌ : Action S A → (A → Action S B) → Action S B
  ◌>>=◌ m f s = continue (m s) f

  abbrev pub ◌>>◌ : Action S A → Action S B → Action S B
  ◌>>◌ m k s = continue (m s) (λ _. k)

module _ {S A : Type 0} where
  abbrev pub return : A → Action S A
  return a s = (done a, s)

  -- `return err`
  abbrev pub errorf : String → Action S A
  errorf e s = (fails e, s)

  abbrev pub panic : Action S A
  panic s = (panics, s)

  abbrev pub block : Action S A
  block s = (blocks, s)

  -- `fmt.Errorf(prefix + "%w", err)`
  abbrev pub prefixed : (String → String) → Ended A × S → Ended A × S
  prefixed f (done a, s) = (done a, s)
  prefixed f (fails e, s) = (fails (f e), s)
  prefixed f (panics, s) = (panics, s)
  prefixed f (blocks, s) = (blocks, s)

  abbrev pub wrapping : (String → String) → Action S A → Action S A
  wrapping f m s = prefixed f (m s)

  abbrev pub gets : (S → A) → Action S A
  gets f s = (done (f s), s)

  abbrev pub when_error : Option String → Action S A → Action S A
  when_error none k = k
  when_error (some e) k = errorf e

module _ {S : Type 0} where
  abbrev pub modify : (S → S) → Action S (Unit {0})
  modify f s = (done tt, f s)

  -- `if err != nil { return err }`
  abbrev pub check : Option String → Action S (Unit {0})
  check none = return tt
  check (some e) = errorf e

-- Whether a call returned, with a result or with an error.
abbrev pub Returns : {A : Type 0} → Ended A → Type 0
Returns (done a) = Unit
Returns (fails e) = Unit
Returns panics = ⊥
Returns blocks = ⊥

-- What a group of calls returns: a panic or a wait of one of them, else the first error.
abbrev pub both : Ended (Unit {0}) → Ended (Unit {0}) → Ended (Unit {0})
both (done u) r = r
both (fails e) (done u) = fails e
both (fails e) (fails e') = fails e
both (fails e) panics = panics
both (fails e) blocks = blocks
both panics r = panics
both blocks r = blocks
