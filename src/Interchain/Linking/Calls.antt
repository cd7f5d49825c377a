-- ===== src/Interchain/Linking/Calls.antt =====
-- Calls of relayers that keep to a plan, and how the steps of Interchain/Linking continue one.
use mathlib.Core.List.{append_assoc, append-nil}
use interchaintest.Base.{
  String, ◌≡◌, refl, sym, ap, ◌∙◌, inl, inr, Option, none, some, List, [], ◌∷◌, ◌++◌, Option-cases,
  nat_eq, string_eq,
}
use interchaintest.Ibc.Config.{ChainConfig}
use interchaintest.Ibc.Channel.{OptionsError}
use interchaintest.Ibc.Transfer.{ClientOutput}
use interchaintest.Interchain.{ChainRef}
use interchaintest.Interchain.Linking.{
  RelayerCall, LinkError, Linked, done, fails, Linking, ◌>>=◌, ◌>>◌, check, ask, require,
}

-- Of the calls planned after these, a first part was made, and all of them if it returns nil.
abbrev pub Follows :
    List RelayerCall → List RelayerCall → List RelayerCall × Linked (Unit {0}) → Type 0
Follows before plan r =
    (made : List RelayerCall) × (rest : List RelayerCall) × (plan ≡ made ++ rest)
    × (r.0 ≡ before ++ made)
    × (r.1 ≡ done tt → rest ≡ [])

-- All of the planned calls were made, and it returns nil.
abbrev pub Completes :
    List RelayerCall → List RelayerCall → List RelayerCall × Linked (Unit {0}) → Type 0
Completes before plan r = r ≡ (before ++ plan, done tt)

pub fails-Follows :
    (before plan : List RelayerCall) (e : LinkError) → Follows before plan (before, fails e)
fails-Follows before plan e = ([], plan, refl, sym (append-nil before), λ q. cc)

pub check-Follows :
    (o : Option OptionsError) (f : Linking (Unit {0})) (before plan : List RelayerCall)
    → Follows before plan (f before)
    → Follows before plan ((check o >> f) before)
check-Follows none f before plan h = h
check-Follows (some e) f before plan h = fails-Follows before plan _

pub check-Completes :
    (o : Option OptionsError) (f : Linking (Unit {0})) (before plan : List RelayerCall)
    → o ≡ none
    → Completes before plan (f before)
    → Completes before plan ((check o >> f) before)
check-Completes none f before plan e h = h
check-Completes (some x) f before plan e h = cc

module _ (config : ChainRef → ChainConfig)
    (error_of : List RelayerCall → RelayerCall → Option String)
    (clients_of : List RelayerCall → RelayerCall → List ClientOutput) where
  pub require-Follows :
      (e : LinkError) (o : Option ClientOutput) (f : Linking (Unit {0}))
      (before plan : List RelayerCall)
      → Follows before plan (f before)
      → Follows before plan ((require config error_of clients_of e o >> f) before)
  require-Follows e none f before plan h = fails-Follows before plan e
  require-Follows e (some c) f before plan h = h

  pub require-Completes :
      (e : LinkError) (o : Option ClientOutput) (c : ClientOutput) (f : Linking (Unit {0}))
      (before plan : List RelayerCall)
      → o ≡ some c
      → Completes before plan (f before)
      → Completes before plan ((require config error_of clients_of e o >> f) before)
  require-Completes e none c f before plan q h = cc
  require-Completes e (some d) c f before plan q h = h

  pub ask-Follows :
      {A : Type 0} (c : RelayerCall) (a : A) (f : A → Linking (Unit {0}))
      (before plan : List RelayerCall)
      → Follows (before ++ c ∷ []) plan (f a (before ++ c ∷ []))
      → Follows before (c ∷ plan) ((ask config error_of clients_of c a >>= f) before)
  unfolding ask
  ask-Follows c a f before plan (made, rest, split_, calls, ends) =
      elim (Option-cases (error_of before c)) [
        | inl e ↦
            rw (e, ask)
              (
                c ∷ made,
                rest,
                ap (λ l. c ∷ l) split_,
                calls ∙ append_assoc before (c ∷ []) made,
                ends,
              )
        | inr (x, e) ↦ rw (e, ask) (c ∷ [], plan, refl, refl, λ q. cc)
      ]

  pub ask-Completes :
      {A : Type 0} (c : RelayerCall) (a : A) (f : A → Linking (Unit {0}))
      (before plan : List RelayerCall)
      → error_of before c ≡ none
      → Completes (before ++ c ∷ []) plan (f a (before ++ c ∷ []))
      → Completes before (c ∷ plan) ((ask config error_of clients_of c a >>= f) before)
  unfolding ask
  ask-Completes c a f before plan e h =
      rw (e, ask) (h ∙ ap (λ l. (l, done tt)) (append_assoc before (c ∷ []) plan))

  pub last-Follows :
      (c : RelayerCall) (before : List RelayerCall)
      → Follows before (c ∷ []) (ask config error_of clients_of c tt before)
  unfolding ask
  last-Follows c before = elim (Option-cases (error_of before c)) [
    | inl e ↦ rw (e, ask) (c ∷ [], [], refl, refl, λ q. refl)
    | inr (x, e) ↦ rw (e, ask) (c ∷ [], [], refl, refl, λ q. cc)
  ]

  pub last-Completes :
      (c : RelayerCall) (before : List RelayerCall)
      → error_of before c ≡ none
      → Completes before (c ∷ []) (ask config error_of clients_of c tt before)
  unfolding ask
  last-Completes c before e = rw (e, ask) refl
