-- ===== src/Tests/Interchain.antt =====
-- Two chains, a relayer and a link between them.
use interchaintest.Base.{
  zero, suc, String, ◌≡◌, refl, ◌≢◌, ◌↔◌, ◌⊎◌, true, none, some, List, [], ◌∷◌, In, Pairs, lookup,
  has, delete, assign, get_list, nat_eq, string_eq, pair_eq,
}
use interchaintest.Ibc.Config.{ChainConfig, zero_config}
use interchaintest.Ibc.Channel.{default_channel_opts, default_client_opts}
use interchaintest.Interchain.{
  ChainRef, RelayerRef, LinkRequest, Interchain, new_interchain, link_of, returns, panics,
  same_chains, Call, chain, relayer, link, perform_all, add_chain, add_relayer, add_link,
}
use interchaintest.Interchain.WellFormed.{IsWellFormed}
use interchaintest.Interchain.Adding.{perform_all-IsWellFormed}
use interchaintest.Interchain.Routes.{relayer_chains, include, Serves, relayer_chains_lem}
use interchaintest.Interchain.Wallets.{
  WalletAnswer, Wallets, Generated, generated, generate_relayer_wallets,
  generate_relayer_wallets-has,
}

abbrev config : ChainRef → ChainConfig
config zero = record zero_config { name = "gaia"; chain_id = "gaia-1" }
config (suc c) = record zero_config { name = "juno"; chain_id = "juno-1" }

abbrev request : LinkRequest
request = record {
  chain1 = 0;
  chain2 = 1;
  relayer = 5;
  path = "gaia-juno";
  client_opts = default_client_opts;
  channel_opts = default_channel_opts;
}

abbrev calls : List (Call config)
calls = chain (some 0) [] ∷ chain (some 1) [] ∷ relayer (some 5) "rly" ∷ link request ∷ []

abbrev built : Interchain
built = record new_interchain {
  chains = (1, "juno-1") ∷ (0, "gaia-1") ∷ [];
  relayers = (5, "rly") ∷ [];
  links = ((5, "gaia-juno"), link_of request) ∷ [];
}

calls_return : perform_all config calls new_interchain ≡ returns built
unfolding perform_all add_chain add_relayer add_link assign has
calls_return = refl

-- A link of a chain to itself panics.
self_link :
    perform_all config
      (chain (some 0) [] ∷ relayer (some 5) "rly" ∷ link (record request { chain2 = 0 }) ∷ [])
      new_interchain
    ≡ panics same_chains
unfolding perform_all add_chain add_relayer add_link assign has
self_link = refl

perform_all-IsWellFormed_example : IsWellFormed config built
perform_all-IsWellFormed_example = perform_all-IsWellFormed config calls built calls_return

relayer_chains_lem_example :
    Pairs (λ a b. a ≢ b) (get_list 5 (relayer_chains built))
    × ((c : ChainRef)
        → In c (get_list 5 (relayer_chains built))
          ↔ (Serves 5 c built.links ⊎ Serves 5 c built.provider_consumer_links))
relayer_chains_lem_example = relayer_chains_lem 5 built

-- Every chain names its wallet after the account.
abbrev build : ChainRef → String → WalletAnswer
build c n =
    WalletAnswer.built (record { key_name = n; formatted_address = "addr"; mnemonic = "words" })

abbrev wallets : Wallets
wallets =
    ((5, 0), record { key_name = "gaia-1"; formatted_address = "addr"; mnemonic = "words" })
    ∷ ((5, 1), record { key_name = "juno-1"; formatted_address = "addr"; mnemonic = "words" })
    ∷ []

wallets_generated :
    ◌≡◌ {A = Generated} (generate_relayer_wallets build built) (generated wallets none)
unfolding generate_relayer_wallets relayer_chains assign delete include get_list lookup
wallets_generated = refl

generate_relayer_wallets-has_example :
    (w : Wallets) × (generate_relayer_wallets build built ≡ generated w none)
    × ((r : RelayerRef) (c : ChainRef)
        → Serves r c built.links ⊎ Serves r c built.provider_consumer_links
        → has (r, c) w ≡ true)
generate_relayer_wallets-has_example =
    generate_relayer_wallets-has build built (λ c n. (_, refl)) refl
