-- ===== src/Interchain/Routes.antt =====
-- `relayerChains` of interchain.go: the chains that each relayer serves. A Go set is a list without
-- repetition.
use interchaintest.Base.{
  ◌≡◌, ◌≢◌, ◌↔◌, ◌⊎◌, inl, inr, Bool, true, false, List, [], ◌∷◌, arith, if◌then◌else◌, Bool-cases,
  ◌==◌, In, All, Pairs, Map, lookup, assign, get_list, get_list-assign, nat_eq, string_eq, pair_eq,
}
use interchaintest.Interchain.{ChainRef, RelayerRef, RelayerPath, Link, Interchain}

unfoldable pub member : ChainRef → List ChainRef → Bool
member c [] = false
member c (d ∷ ds) = if d == c then true else member c ds

-- `set[c] = struct{}{}`
unfoldable pub include : ChainRef → List ChainRef → List ChainRef
unfolding member
include c set = if member c set then set else c ∷ set

abbrev pub Routes : Type 0
Routes = Map RelayerRef (List ChainRef)

-- One round of either loop of `relayerChains`.
unfoldable pub add_route : RelayerRef → Link → Routes → Routes
add_route r l uniq = assign r (include l.second (include l.first (get_list r uniq))) uniq

unfoldable pub collect : Map RelayerPath Link → Routes → Routes
unfolding add_route
collect [] uniq = uniq
collect ((key, l) ∷ rest) uniq = collect rest (add_route key.0 l uniq)

-- `(*Interchain).relayerChains`
unfoldable pub relayer_chains : Interchain → Routes
unfolding collect
relayer_chains ic = collect ic.provider_consumer_links (collect ic.links [])

-- A chain stands at an end of a link of the relayer.
abbrev pub Serves : RelayerRef → ChainRef → Map RelayerPath Link → Type 0
Serves r c [] = ⊥
Serves r c ((key, l) ∷ rest) = ((key.0 ≡ r) × ((c ≡ l.first) ⊎ (c ≡ l.second))) ⊎ Serves r c rest

member-In : (c : ChainRef) (set : List ChainRef) → (member c set ≡ true) ↔ In c set
unfolding member
member-In c [] = ground arith
member-In c (d ∷ ds) = ground (arith, member-In c ds)

member-false : (c : ChainRef) (set : List ChainRef) → member c set ≡ false → All (λ b. c ≢ b) set
unfolding member
member-false c [] h = tt
member-false c (d ∷ ds) h = ground (arith, member-false c ds)

include-In : (c d : ChainRef) (set : List ChainRef) → In d (include c set) ↔ ((d ≡ c) ⊎ In d set)
unfolding include
include-In c d set = ground (arith, member-In c set)

include-Distinct :
    (c : ChainRef) (set : List ChainRef)
    → Pairs (λ a b. a ≢ b) set
    → Pairs (λ a b. a ≢ b) (include c set)
unfolding include
include-Distinct c set h = elim (Bool-cases (member c set)) [
  | inl e ↦ rw e h
  | inr e ↦ rw e (member-false c set e, h)
]

add_route-In :
    (r s : RelayerRef) (c : ChainRef) (l : Link) (uniq : Routes)
    → In c (get_list s (add_route r l uniq))
      ↔ (In c (get_list s uniq) ⊎ ((r ≡ s) × ((c ≡ l.first) ⊎ (c ≡ l.second))))
unfolding add_route
add_route-In r s c l uniq = ground (
  arith,
  get_list-assign r s (include l.second (include l.first (get_list r uniq))) uniq,
  include-In l.second c (include l.first (get_list s uniq)),
  include-In l.first c (get_list s uniq),
)

collect-In :
    (s : RelayerRef) (c : ChainRef) (m : Map RelayerPath Link) (uniq : Routes)
    → In c (get_list s (collect m uniq)) ↔ (In c (get_list s uniq) ⊎ Serves s c m)
unfolding collect
collect-In s c [] uniq = ground arith
collect-In s c ((key, l) ∷ m) uniq =
    ground (arith, collect-In s c m (add_route key.0 l uniq), add_route-In key.0 s c l uniq)

-- No chain stands twice in a relayer's list.
abbrev pub AreDistinct : Routes → Type 0
AreDistinct uniq = (r : RelayerRef) → Pairs (λ a b. a ≢ b) (get_list r uniq)

add_route-AreDistinct :
    (r : RelayerRef) (l : Link) (uniq : Routes)
    → AreDistinct uniq
    → AreDistinct (add_route r l uniq)
unfolding add_route
add_route-AreDistinct r l uniq h s = rw get_list-assign (elim (Bool-cases (r == s)) [
  | inl e ↦ rw e (include-Distinct l.second _ (include-Distinct l.first _ (h r)))
  | inr e ↦ rw e (h s)
])

collect-AreDistinct :
    (m : Map RelayerPath Link) (uniq : Routes) → AreDistinct uniq → AreDistinct (collect m uniq)
unfolding collect
collect-AreDistinct [] uniq h = h
collect-AreDistinct ((key, l) ∷ m) uniq h =
    collect-AreDistinct m (add_route key.0 l uniq) (add_route-AreDistinct key.0 l uniq h)

-- A relayer's chains are exactly the chains at the ends of its links, of both kinds, each once.
pub relayer_chains_lem :
    (r : RelayerRef) (ic : Interchain)
    → Pairs (λ a b. a ≢ b) (get_list r (relayer_chains ic))
      × ((c : ChainRef)
          → In c (get_list r (relayer_chains ic))
            ↔ (Serves r c ic.links ⊎ Serves r c ic.provider_consumer_links))
unfolding relayer_chains get_list lookup
relayer_chains_lem r ic = (
  collect-AreDistinct ic.provider_consumer_links _ (collect-AreDistinct ic.links [] (λ s. tt)) r,
  λ c. ground (
    arith,
    collect-In r c ic.provider_consumer_links (collect ic.links []),
    collect-In r c ic.links [],
  ),
)
