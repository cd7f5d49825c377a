-- ===== src/Interchain/WellFormed.antt =====
-- What it means for an Interchain to be well formed, and what its checks establish.
use interchaintest.Base.{
  ℕ, String, ◌≡◌, refl, sym, ◌≢◌, true, Option, none, some, [], ◌∷◌, arith, eq_iff, All, Pairs,
  All-weaken, Map, has, delete, assign, Pairs-delete, delete-ne, has-assign, nat_eq, string_eq,
  pair_eq,
}
use interchaintest.Ibc.Config.{ChainConfig}
use interchaintest.Interchain.{
  ChainRef, RelayerRef, RelayerPath, Link, LinkRequest, Interchain, Outcome, Panic, returns, panics,
  unless, check_relayer, key_of, check_link, check_chain, ◌>>=◌, link_of,
}

-- Two entries of a map have different keys.
abbrev pub KeysDiffer {ℓ κ} : {K : Type ℓ} {V : Type κ} → K × V → K × V → Type ℓ
KeysDiffer p q = p.0 ≢ q.0

abbrev pub RelayersDiffer : RelayerRef × String → RelayerRef × String → Type 0
RelayersDiffer p q = (p.0 ≢ q.0) × (p.1 ≢ q.1)

-- A link joins two different chains that were added, on a relayer that was added.
abbrev pub IsLinked : Interchain → RelayerPath × Link → Type 0
IsLinked ic (key, l) =
    (has l.first ic.chains ≡ true)
    × (has l.second ic.chains ≡ true)
    × (has key.0 ic.relayers ≡ true)
    × (l.first ≢ l.second)

pub returns-injective {ℓ} : {A : Type ℓ} {a b : A} → returns a ≡ returns b → a ≡ b
returns-injective h = cc

module _ {ℓ} {A : Type ℓ} where
  pub unless-eq-returns :
      (o : Option Panic) (a : A) {b : A} → unless o a ≡ returns b → (o ≡ none) × (a ≡ b)
  unless-eq-returns none a h = (refl, returns-injective h)
  unless-eq-returns (some p) a h = cc

  pub >>=-eq-returns :
      (m : Outcome A) (f : A → Outcome A) {b : A}
      → (m >>= f) ≡ returns b
      → (a : A) × (m ≡ returns a) × (f a ≡ returns b)
  >>=-eq-returns (returns a) f h = (a, refl, h)
  >>=-eq-returns (panics p) f h = cc

pub check_link-IsLinked :
    (ic : Interchain) (links : Map RelayerPath Link) (l : LinkRequest)
    → check_link ic links l ≡ none
    → IsLinked ic (key_of l, link_of l)
unfolding check_link
check_link-IsLinked ic links l h = ground arith

pub keys_differ :
    (k : RelayerPath) (l : Link) (m : Map RelayerPath Link)
    → Pairs KeysDiffer m
    → Pairs KeysDiffer ((k, l) ∷ delete k m)
keys_differ k l m h =
    (All-weaken (λ p ne e. ne (sym e)) _ (delete-ne k m), Pairs-delete KeysDiffer k m h)

pub check_relayer-none :
    (r : RelayerRef) (n : String) (m : Map RelayerRef String)
    → check_relayer r n m ≡ none
    → All (RelayersDiffer (r, n)) m
unfolding check_relayer
check_relayer-none r n [] h = tt
check_relayer-none r n ((s, k) ∷ m) h = ground (arith, check_relayer-none r n m, eq_iff k n)

-- `IsLinked` only wants keys to be present, so it survives an assignment to either map.
pub IsLinked-grow :
    (ic jc : Interchain)
    → ((k : ChainRef) → has k ic.chains ≡ true → has k jc.chains ≡ true)
    → ((k : RelayerRef) → has k ic.relayers ≡ true → has k jc.relayers ≡ true)
    → (p : RelayerPath × Link) → IsLinked ic p
    → IsLinked jc p
IsLinked-grow ic jc f g p h = (f _ h.0, f _ h.1, g _ h.2, h.3)

pub has-assign_grow {ℓ} :
    {V : Type ℓ} (k : ℕ) (v : V) (m : Map ℕ V) (j : ℕ)
    → has j m ≡ true
    → has j (assign k v m) ≡ true
has-assign_grow k v m j h = ground (arith, has-assign k j v m)

module _ (config : ChainRef → ChainConfig) where
  abbrev pub ChainsDiffer : ChainRef × String → ChainRef × String → Type 0
  ChainsDiffer p q = (p.0 ≢ q.0) × (p.1 ≢ q.1) × ((config p.0).name ≢ (config q.0).name)

  pub record IsWellFormed (ic : Interchain) : Type 0 where
    pub ids : All (λ (p : ChainRef × String). p.1 ≡ (config p.0).chain_id) ic.chains
    pub chains_differ : Pairs ChainsDiffer ic.chains
    pub relayers_differ : Pairs RelayersDiffer ic.relayers
    pub links_join : All (IsLinked ic) ic.links
    pub links_differ : Pairs KeysDiffer ic.links
    pub consumers_join : All (IsLinked ic) ic.provider_consumer_links
    pub consumers_differ : Pairs KeysDiffer ic.provider_consumer_links

  pub check_chain-none :
      (c : ChainRef) (m : Map ChainRef String)
      → check_chain config c m ≡ none
      → All (ChainsDiffer (c, (config c).chain_id)) m
  unfolding check_chain
  check_chain-none c [] h = tt
  check_chain-none c ((d, id) ∷ m) h = ground (
    arith,
    check_chain-none c m,
    eq_iff id (config c).chain_id,
    eq_iff (config d).name (config c).name,
  )
