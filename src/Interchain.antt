-- ===== src/Interchain.antt =====
-- The Interchain of interchain.go: its maps, and the methods that fill them before Build. A chain or
-- a relayer is known by reference, since Go compares interface values by identity; what `Config()`
-- reports of a chain is a parameter. A nil chain or relayer is a reference that is never added.
use interchaintest.Base.{
  ℕ, String, Bool, false, not, Option, none, some, List, [], ◌∷◌, if◌then◌else◌, ◌==◌, Map, has,
  assign, ℤ, nat_eq, string_eq, pair_eq,
}
use interchaintest.Ibc.Config.{ChainConfig}
use interchaintest.Ibc.Channel.{CreateChannelOptions, CreateClientOptions}
pub mod WellFormed
pub mod Adding
pub mod Routes
pub mod Wallets
pub mod Linking

abbrev pub ChainRef : Type 0
ChainRef = ℕ

abbrev pub RelayerRef : Type 0
RelayerRef = ℕ

-- `WalletAmount`, with the amount of cosmossdk.io/math as an integer.
pub record WalletAmount : Type 0 where
  pub address : String
  pub denom : String
  pub amount : ℤ

-- `Wallet`
pub record Wallet : Type 0 where
  pub key_name : String
  pub formatted_address : String
  pub mnemonic : String

-- `relayerPath`
abbrev pub RelayerPath : Type 0
RelayerPath = RelayerRef × String

-- `interchainLink` and `providerConsumerLink`: the provider stands first.
pub record Link : Type 0 where
  pub first : ChainRef
  pub second : ChainRef
  pub create_client_opts : CreateClientOptions
  pub create_channel_opts : CreateChannelOptions

-- `InterchainLink` and `ProviderConsumerLink`
pub record LinkRequest : Type 0 where
  pub chain1 : ChainRef
  pub chain2 : ChainRef
  pub relayer : RelayerRef
  pub path : String
  pub client_opts : CreateClientOptions
  pub channel_opts : CreateChannelOptions

pub record Interchain : Type 0 where
  pub chains : Map ChainRef String
  pub relayers : Map RelayerRef String
  pub links : Map RelayerPath Link
  pub provider_consumer_links : Map RelayerPath Link
  pub built : Bool
  pub relayer_wallets : Option (Map (RelayerRef × ChainRef) Wallet)
  pub additional_genesis_wallets : Map ChainRef (List WalletAmount)

-- `NewInterchain`
abbrev pub new_interchain : Interchain
new_interchain = record {
  chains = [];
  relayers = [];
  links = [];
  provider_consumer_links = [];
  built = false;
  relayer_wallets = none;
  additional_genesis_wallets = [];
}

pub data Panic : Type 0 where
  nil_chain chain_already_added chain_id_exists chain_name_exists : Panic
  nil_relayer relayer_already_added relayer_name_exists : Panic
  chain_never_added relayer_never_added same_chains path_exists : Panic

pub data Outcome {ℓ} (A : Type ℓ) : Type ℓ where
  returns : A → Outcome A
  panics : Panic → Outcome A

infixl 5 ◌>>=◌
abbrev pub ◌>>=◌ {ℓ κ} : {A : Type ℓ} {B : Type κ} → Outcome A → (A → Outcome B) → Outcome B
returns a >>= f = f a
panics p >>= f = panics p

-- The loop of AddRelayer over the relayers.
unfoldable pub check_relayer : RelayerRef → String → Map RelayerRef String → Option Panic
check_relayer relayer name [] = none
check_relayer relayer name ((r, n) ∷ rest) =
    if r == relayer
    then some relayer_already_added
    else if n == name
    then some relayer_name_exists
    else check_relayer relayer name rest

abbrev pub unless {ℓ} : {A : Type ℓ} → Option Panic → A → Outcome A
unless none a = returns a
unless (some p) a = panics p

-- `(*Interchain).AddRelayer`
unfoldable pub add_relayer : Option RelayerRef → String → Interchain → Outcome Interchain
unfolding check_relayer
add_relayer none name ic = panics nil_relayer
add_relayer (some relayer) name ic =
    unless (check_relayer relayer name ic.relayers)
      (record ic { relayers = assign relayer name ic.relayers })

abbrev pub key_of : LinkRequest → RelayerPath
key_of l = (l.relayer, l.path)

abbrev pub link_of : LinkRequest → Link
link_of l = record {
  first = l.chain1;
  second = l.chain2;
  create_client_opts = l.client_opts;
  create_channel_opts = l.channel_opts;
}

-- The checks that AddLink and AddProviderConsumerLink make against their own map of links.
unfoldable pub check_link : Interchain → Map RelayerPath Link → LinkRequest → Option Panic
check_link ic links l =
    if not (has l.chain1 ic.chains)
    then some chain_never_added
    else if not (has l.chain2 ic.chains)
    then some chain_never_added
    else if not (has l.relayer ic.relayers)
    then some relayer_never_added
    else if l.chain1 == l.chain2
    then some same_chains
    else if has (key_of l) links
    then some path_exists
    else none

-- `(*Interchain).AddLink`
unfoldable pub add_link : LinkRequest → Interchain → Outcome Interchain
unfolding check_link
add_link l ic =
    unless (check_link ic ic.links l) (record ic { links = assign (key_of l) (link_of l) ic.links })

-- `(*Interchain).AddProviderConsumerLink`
unfoldable pub add_provider_consumer_link : LinkRequest → Interchain → Outcome Interchain
unfolding check_link
add_provider_consumer_link l ic = unless (check_link ic ic.provider_consumer_links l) (record ic {
  provider_consumer_links = assign (key_of l) (link_of l) ic.provider_consumer_links;
})

abbrev add_wallets : ChainRef → List WalletAmount → Interchain → Interchain
add_wallets chain [] ic = ic
add_wallets chain (w ∷ ws) ic = record ic {
  additional_genesis_wallets = assign chain (w ∷ ws) ic.additional_genesis_wallets;
}

module _ (config : ChainRef → ChainConfig) where
  -- The loop of AddChain over the chains.
  unfoldable pub check_chain : ChainRef → Map ChainRef String → Option Panic
  check_chain chain [] = none
  check_chain chain ((c, id) ∷ rest) =
      if c == chain
      then some chain_already_added
      else if id == (config chain).chain_id
      then some chain_id_exists
      else if (config c).name == (config chain).name
      then some chain_name_exists
      else check_chain chain rest

  -- `(*Interchain).AddChain`
  unfoldable pub add_chain : Option ChainRef → List WalletAmount → Interchain → Outcome Interchain
  unfolding check_chain
  add_chain none wallets ic = panics nil_chain
  add_chain (some chain) wallets ic = unless (check_chain chain ic.chains) (
      add_wallets chain wallets
        (record ic { chains = assign chain (config chain).chain_id ic.chains }))

  -- The calls that a test makes before Build, in any order.
  pub data Call : Type 0 where
    chain : Option ChainRef → List WalletAmount → Call
    relayer : Option RelayerRef → String → Call
    link provider_consumer_link : LinkRequest → Call

  unfoldable pub perform : Call → Interchain → Outcome Interchain
  perform (chain c ws) ic = add_chain c ws ic
  perform (relayer r n) ic = add_relayer r n ic
  perform (link l) ic = add_link l ic
  perform (provider_consumer_link l) ic = add_provider_consumer_link l ic

  unfoldable pub perform_all : List Call → Interchain → Outcome Interchain
  unfolding perform
  perform_all [] ic = returns ic
  perform_all (c ∷ cs) ic = perform c ic >>= perform_all cs
