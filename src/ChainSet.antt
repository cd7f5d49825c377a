-- ===== src/ChainSet.antt =====
-- chainset.go: methods that act on every chain of a set. What a chain answers to a call, given the
-- calls before it, is a parameter; the goroutines of an errgroup run one after the other, each to its
-- end, in one order of Go's ranges over the set.
use interchaintest.Base.{
  ℕ, String, Bool, not, ◌&&◌, Option, none, some, List, [], ◌∷◌, if◌then◌else◌, Map, assign, cat,
  get_list, nat_eq, string_eq,
}
use interchaintest.Base.Actions.{
  Ended, Action, done, fails, panics, blocks, ◌>>◌, return, wrapping, both,
}
use interchaintest.Interchain.{WalletAmount}
pub mod Order

-- What the methods read of a chain: its reference, its configuration, and whether it is a CosmosChain
-- with a provider or with consumers.
pub record SetChain : Type 0 where
  pub ref : ℕ
  pub name : String
  pub is_cosmos : Bool
  pub has_provider : Bool
  pub has_consumers : Bool

pub data ChainCall : Type 0 where
  initialize build_wallet : ℕ → ChainCall
  start_provider start_chain start_consumer : ℕ → List WalletAmount → ChainCall

-- The calls made so far, the latest first.
abbrev pub Calls : Type 0
Calls = List ChainCall

pub record Chains : Type 0 where
  pub fault : Calls → ChainCall → Option String
  pub address : Calls → ChainCall → String

-- A chain that is started after the others.
abbrev pub is_consumer : SetChain → Bool
is_consumer c = c.is_cosmos && c.has_provider

-- An errgroup with a call for each chain.
unfoldable pub group :
    {S : Type 0} → (SetChain → Action S (Unit {0})) → List SetChain → Action S (Unit {0})
group m [] s = (done tt, s)
group m (c ∷ cs) s = let (r, t) = m c s in let (r', u) = group m cs t in (both r r', u)

module _ (chains : Chains) where
  unfoldable pub call : ChainCall → Action Calls (Unit {0})
  call c calls = elim (chains.fault calls c) [
    | none ↦ (done tt, c ∷ calls)
    | some e ↦ (fails e, c ∷ calls)
  ]

  -- `(*chainSet).Initialize`
  unfoldable pub initialize_all : List SetChain → Action Calls (Unit {0})
  unfolding group call
  initialize_all = group (λ c.
      wrapping (cat (cat "failed to initialize chain " (cat c.name ": ")))
        (call (initialize c.ref)))

  -- `CreateCommonAccount`: the addresses are kept with the calls while the group runs.
  unfoldable pub create_account : SetChain → Action (Map ℕ String × Calls) (Unit {0})
  unfolding call
  create_account c (m, calls) =
      let (r, calls') = call (build_wallet c.ref) calls in (r, (noted r, calls'))
    where
      noted : Ended (Unit {0}) → Map ℕ String
      noted (done u) = assign c.ref (chains.address calls (build_wallet c.ref)) m
      noted r = m

  abbrev pub addresses :
      String → Ended (Unit {0}) × (Map ℕ String × Calls) → Ended (Map ℕ String) × Calls
  addresses key_name (done u, (m, calls)) = (done m, calls)
  addresses key_name (fails e, (m, calls)) =
      (fails (cat "failed to create common account with name " (cat key_name (cat ": " e))), calls)
  addresses key_name (panics, (m, calls)) = (panics, calls)
  addresses key_name (blocks, (m, calls)) = (blocks, calls)

  unfoldable pub create_common_account : List SetChain → String → Action Calls (Map ℕ String)
  unfolding group create_account
  create_common_account cs key_name calls = addresses key_name (group create_account cs ([], calls))

  module _ (wallets : Map ℕ (List WalletAmount)) where
    -- The call that starts a chain, and the text before its error.
    unfoldable pub start_call : SetChain → ChainCall
    start_call c =
        let own = get_list c.ref wallets in
        if is_consumer c
        then start_consumer c.ref own
        else if c.is_cosmos && c.has_consumers
        then start_provider c.ref own
        else start_chain c.ref own

    abbrev pub kind : SetChain → String
    kind c =
        if is_consumer c
        then "consumer chain "
        else if c.is_cosmos && c.has_consumers
        then "provider chain "
        else "chain "

    unfoldable pub start_one : SetChain → Action Calls (Unit {0})
    unfolding start_call call
    start_one c =
        wrapping (cat (cat "failed to start " (cat (kind c) (cat c.name ": "))))
          (call (start_call c))

    unfoldable pub start_if : Bool → SetChain → Action Calls (Unit {0})
    unfolding start_one
    start_if b c = if b then start_one c else return tt

    -- `(*chainSet).Start`
    unfoldable pub start : List SetChain → Action Calls (Unit {0})
    unfolding group start_if
    start cs = do
      group (λ c. start_if (not (is_consumer c)) c) cs
      group (λ c. start_if (is_consumer c) c) cs
