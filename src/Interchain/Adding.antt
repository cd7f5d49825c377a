-- ===== src/Interchain/Adding.antt =====
-- What an Interchain satisfies after any calls of its Add methods.
use interchaintest.Base.{
  String, ◌≡◌, refl, Option, none, some, List, [], ◌∷◌, All-weaken, assign, All-delete,
  Pairs-delete, subst, nat_eq, string_eq, pair_eq,
}
use interchaintest.Ibc.Config.{ChainConfig}
use interchaintest.Interchain.{
  ChainRef, RelayerRef, WalletAmount, LinkRequest, Interchain, new_interchain, returns,
  check_relayer, add_relayer, key_of, add_link, add_provider_consumer_link, check_chain, add_chain,
  Call, chain, relayer, link, provider_consumer_link, perform, perform_all, add_wallets, link_of,
}
use interchaintest.Interchain.WellFormed.{
  RelayersDiffer, IsLinked, returns-injective, unless-eq-returns, >>=-eq-returns,
  check_link-IsLinked, keys_differ, check_relayer-none, IsLinked-grow, has-assign_grow,
  ChainsDiffer, IsWellFormed, check_chain-none,
}

module _ (config : ChainRef → ChainConfig) where
  IsWellFormed-new : IsWellFormed config new_interchain
  IsWellFormed-new = record {
    ids = tt;
    chains_differ = tt;
    relayers_differ = tt;
    links_join = tt;
    links_differ = tt;
    consumers_join = tt;
    consumers_differ = tt;
  }

  add_wallets-IsWellFormed :
      (c : ChainRef) (ws : List WalletAmount) (ic : Interchain)
      → IsWellFormed config ic
      → IsWellFormed config (add_wallets c ws ic)
  add_wallets-IsWellFormed c [] ic w = w
  add_wallets-IsWellFormed c (x ∷ ws) ic w = record {
    ids = w.ids;
    chains_differ = w.chains_differ;
    relayers_differ = w.relayers_differ;
    links_join = w.links_join;
    links_differ = w.links_differ;
    consumers_join = w.consumers_join;
    consumers_differ = w.consumers_differ;
  }

  assign_chain-IsWellFormed :
      (c : ChainRef) (ic : Interchain)
      → check_chain config c ic.chains ≡ none
      → IsWellFormed config ic
      → IsWellFormed config (record ic { chains = assign c (config c).chain_id ic.chains })
  unfolding assign
  assign_chain-IsWellFormed c ic e w =
      let jc : Interchain = record ic { chains = assign c (config c).chain_id ic.chains } in
      let grow = IsLinked-grow ic jc (has-assign_grow c (config c).chain_id ic.chains) (λ k h. h) in
      record {
        ids = (refl, All-delete _ c ic.chains w.ids);
        chains_differ = (
          All-delete _ c ic.chains (check_chain-none config c ic.chains e),
          Pairs-delete (ChainsDiffer config) c ic.chains w.chains_differ,
        );
        relayers_differ = w.relayers_differ;
        links_join = All-weaken grow ic.links w.links_join;
        links_differ = w.links_differ;
        consumers_join = All-weaken grow ic.provider_consumer_links w.consumers_join;
        consumers_differ = w.consumers_differ;
      }

  assign_relayer-IsWellFormed :
      (r : RelayerRef) (n : String) (ic : Interchain)
      → check_relayer r n ic.relayers ≡ none
      → IsWellFormed config ic
      → IsWellFormed config (record ic { relayers = assign r n ic.relayers })
  unfolding assign
  assign_relayer-IsWellFormed r n ic e w =
      let jc : Interchain = record ic { relayers = assign r n ic.relayers } in
      let grow = IsLinked-grow ic jc (λ k h. h) (has-assign_grow r n ic.relayers) in
      record {
        ids = w.ids;
        chains_differ = w.chains_differ;
        relayers_differ = (
          All-delete _ r ic.relayers (check_relayer-none r n ic.relayers e),
          Pairs-delete RelayersDiffer r ic.relayers w.relayers_differ,
        );
        links_join = All-weaken grow ic.links w.links_join;
        links_differ = w.links_differ;
        consumers_join = All-weaken grow ic.provider_consumer_links w.consumers_join;
        consumers_differ = w.consumers_differ;
      }

  add_chain-IsWellFormed :
      (c : Option ChainRef) (ws : List WalletAmount) (ic jc : Interchain)
      → add_chain config c ws ic ≡ returns jc
      → IsWellFormed config ic
      → IsWellFormed config jc
  unfolding add_chain
  add_chain-IsWellFormed none ws ic jc h w = cc
  add_chain-IsWellFormed (some c) ws ic jc h w =
      let (e, q) = unless-eq-returns _ _ h in
      subst (IsWellFormed config) q
        (add_wallets-IsWellFormed c ws _ (assign_chain-IsWellFormed c ic e w))

  add_relayer-IsWellFormed :
      (r : Option RelayerRef) (n : String) (ic jc : Interchain)
      → add_relayer r n ic ≡ returns jc
      → IsWellFormed config ic
      → IsWellFormed config jc
  unfolding add_relayer
  add_relayer-IsWellFormed none n ic jc h w = cc
  add_relayer-IsWellFormed (some r) n ic jc h w =
      let (e, q) = unless-eq-returns _ _ h in
      subst (IsWellFormed config) q (assign_relayer-IsWellFormed r n ic e w)

  add_link-IsWellFormed :
      (l : LinkRequest) (ic jc : Interchain)
      → add_link l ic ≡ returns jc
      → IsWellFormed config ic
      → IsWellFormed config jc
  unfolding add_link assign
  add_link-IsWellFormed l ic jc h w =
      let (e, q) = unless-eq-returns _ _ h in
      subst (IsWellFormed config) q (record {
        ids = w.ids;
        chains_differ = w.chains_differ;
        relayers_differ = w.relayers_differ;
        links_join = (
          check_link-IsLinked ic ic.links l e,
          All-delete (IsLinked ic) (key_of l) ic.links w.links_join,
        );
        links_differ = keys_differ (key_of l) (link_of l) ic.links w.links_differ;
        consumers_join = w.consumers_join;
        consumers_differ = w.consumers_differ;
      })

  add_provider_consumer_link-IsWellFormed :
      (l : LinkRequest) (ic jc : Interchain)
      → add_provider_consumer_link l ic ≡ returns jc
      → IsWellFormed config ic
      → IsWellFormed config jc
  unfolding add_provider_consumer_link assign
  add_provider_consumer_link-IsWellFormed l ic jc h w =
      let (e, q) = unless-eq-returns _ _ h in
      let old = ic.provider_consumer_links in
      subst (IsWellFormed config) q (record {
        ids = w.ids;
        chains_differ = w.chains_differ;
        relayers_differ = w.relayers_differ;
        links_join = w.links_join;
        links_differ = w.links_differ;
        consumers_join = (
          check_link-IsLinked ic old l e,
          All-delete (IsLinked ic) (key_of l) old w.consumers_join,
        );
        consumers_differ = keys_differ (key_of l) (link_of l) old w.consumers_differ;
      })

  perform-IsWellFormed :
      (c : Call config) (ic jc : Interchain)
      → perform config c ic ≡ returns jc
      → IsWellFormed config ic
      → IsWellFormed config jc
  unfolding perform
  perform-IsWellFormed (chain c ws) = add_chain-IsWellFormed c ws
  perform-IsWellFormed (relayer r n) = add_relayer-IsWellFormed r n
  perform-IsWellFormed (link l) = add_link-IsWellFormed l
  perform-IsWellFormed (provider_consumer_link l) = add_provider_consumer_link-IsWellFormed l

  perform_all-IsWellFormed_from :
      (cs : List (Call config)) (ic jc : Interchain)
      → perform_all config cs ic ≡ returns jc
      → IsWellFormed config ic
      → IsWellFormed config jc
  unfolding perform_all
  perform_all-IsWellFormed_from [] ic jc h w = subst (IsWellFormed config) (returns-injective h) w
  perform_all-IsWellFormed_from (c ∷ cs) ic jc h w =
      let (kc, p, q) = >>=-eq-returns (perform config c ic) (perform_all config cs) h in
      perform_all-IsWellFormed_from cs kc jc q (perform-IsWellFormed c ic kc p w)

  -- Whatever Add calls a test makes on a new Interchain, as long as none of them panics: chain IDs
  -- are those of the configurations, chains differ in reference, ID and name, relayers in reference
  -- and name, paths in their keys, and every link joins two different added chains on an added
  -- relayer.
  pub perform_all-IsWellFormed :
      (cs : List (Call config)) (ic : Interchain)
      → perform_all config cs new_interchain ≡ returns ic
      → IsWellFormed config ic
  perform_all-IsWellFormed cs ic h =
      perform_all-IsWellFormed_from cs new_interchain ic h IsWellFormed-new
