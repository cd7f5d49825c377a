-- ===== src/Cosmos/Chain/SameGenesis.antt =====
-- `Start` gives every node of a chain the same genesis file.
use interchaintest.Base.{String, ◌≡◌, refl, sym, List, subst, nat_eq, string_eq}
use interchaintest.Base.Actions.{Ended, done, fails, panics, blocks, check}
use interchaintest.Base.Keeping.{
  Keeps, OnDone, continue-Keeps, continue-OnDone, continue_last-OnDone,
}
use interchaintest.Ibc.Config.{ChainConfig}
use interchaintest.Interchain.{WalletAmount}
use interchaintest.Dockerutil.{Host, Docker}
use interchaintest.Testutil.Wait.{WaitResult, reached, height_error, running, wait_for_delta, fresh}
use interchaintest.Cosmos.{Packages, ChainNode, node_name}
use interchaintest.Cosmos.Exec.{waited, wait_for_blocks}
use interchaintest.Cosmos.Files.{overwrite_genesis_file}
use interchaintest.Cosmos.Chain.{
  CosmosChain, Hooks, for_each, groups, on_chain, nodes, get_full_node, other_validators,
  without_provider, decimal_pow, init_validator, init_full_node, run_hook, collect_genesis, launch,
  run_chain, start,
}
use interchaintest.Cosmos.Chain.Genesis.{volumes, Held, for_each-Held}
use interchaintest.Cosmos.Chain.Kept.{LeavesGenesis, ChainHeld, launched-Keeps}

fails_apart : (x : String) → ◌≡◌ {A = Ended (Unit {0})} (fails x) (done tt) → ⊥
fails_apart x e = cc

panics_apart : ◌≡◌ {A = Ended (Unit {0})} panics (done tt) → ⊥
panics_apart e = cc

blocks_apart : ◌≡◌ {A = Ended (Unit {0})} blocks (done tt) → ⊥
blocks_apart e = cc

module _ (packages : Packages) (docker : Docker) (hooks : Hooks) (cfg : ChainConfig)
    (leaves : LeavesGenesis packages docker cfg hooks.pre_start_node) where
  -- Every node's volume was last written this genesis file.
  abbrev pub SameGenesis : String → CosmosChain → Type 0
  SameGenesis g c = Held packages docker cfg g (volumes packages docker cfg g (nodes c)) c.host

  launch-OnDone :
      (g : String) (c : CosmosChain) → OnDone (SameGenesis g) (launch packages docker hooks cfg g c)
  unfolding launch
  launch-OnDone g c =
      let vs = volumes packages docker cfg g (nodes c) in
      weaken vs (launch packages docker hooks cfg g c) (
        continue_last-OnDone (ChainHeld packages docker hooks cfg leaves g vs)
          (on_chain (for_each (overwrite_genesis_file packages docker cfg g) (nodes c)) c) _
          (written (for_each (overwrite_genesis_file packages docker cfg g) (nodes c) c.host)
            (for_each-Held packages docker cfg g (nodes c) c.host))
          (λ u. launched-Keeps packages docker hooks cfg leaves g vs (nodes c)))
    where
      weaken :
          {A : Type 0} (vs : List String) (x : Ended A × CosmosChain)
          → OnDone (ChainHeld packages docker hooks cfg leaves g vs) x
          → OnDone (SameGenesis g) x
      weaken vs (done a, c) (e, h) = subst (λ us. Held packages docker cfg g us c.host) (sym e) h
      weaken vs (fails e, c) h = tt
      weaken vs (panics, c) h = tt
      weaken vs (blocks, c) h = tt

      written :
          (x : Ended (Unit {0}) × Host)
          → OnDone (Held packages docker cfg g (volumes packages docker cfg g (nodes c))) x
          → OnDone
              (ChainHeld packages docker hooks cfg leaves g
                (volumes packages docker cfg g (nodes c)))
              (x.0, record c { host = x.1 })
      written (done u, h) k = (refl, k)
      written (fails e, h) k = tt
      written (panics, h) k = tt
      written (blocks, h) k = tt

  -- Some genesis file is the one that every node was last given.
  abbrev pub Agrees : CosmosChain → Type 0
  Agrees c = (g : String) × SameGenesis g c

  run_chain-OnDone :
      (g : String) (c : CosmosChain) → OnDone Agrees (run_chain packages docker hooks cfg g c)
  unfolding run_chain
  run_chain-OnDone g c =
      continue_last-OnDone Agrees (launch packages docker hooks cfg g c) _
        (agree (launch packages docker hooks cfg g c) (launch-OnDone g c))
        (λ u c1 p. continue-Keeps Agrees (get_full_node c1) _ p (λ tn. wait tn))
    where
      agree : (x : Ended (Unit {0}) × CosmosChain) → OnDone (SameGenesis g) x → OnDone Agrees x
      agree (done u, c) h = (g, h)
      agree (fails e, c) h = tt
      agree (panics, c) h = tt
      agree (blocks, c) h = tt

      kept :
          (r : WaitResult) (c : CosmosChain)
          → Agrees c
          → Agrees (record c { host = (waited packages docker cfg r c.host).1 })
      kept (reached h) c p = p
      kept (height_error e) c p = p
      kept running c p = p

      wait : (tn : ChainNode) → Keeps Agrees (on_chain (wait_for_blocks packages docker cfg 2 tn))
      wait tn c p =
          kept
            (wait_for_delta (packages.heights (node_name cfg tn) c.host.calls) packages.patience 0 2
              fresh)
            c p

  start-OnDone :
      (wallets : List WalletAmount) (c : CosmosChain)
      → OnDone Agrees (start packages docker hooks cfg wallets c)
  unfolding start
  start-OnDone wallets c =
      continue-OnDone Agrees
        (check
          (without_provider packages docker hooks cfg
            cfg.interchain_security_config.consumer_copy_provider_key c.has_provider)
          c)
        _
        (λ u c1.
          continue-OnDone Agrees (decimal_pow cfg.coin_decimals, c1) _
            (λ pow c2.
              continue-OnDone Agrees
                (groups (init_validator packages docker hooks cfg pow)
                  (init_full_node packages docker hooks cfg) c2)
                _
                (λ u c3.
                  continue-OnDone Agrees
                    (run_hook packages docker hooks cfg hooks.pre_start_nodes c3.pre_start_nodes c3)
                    _
                    (λ u c4.
                      continue-OnDone Agrees
                        (run_hook packages docker hooks cfg hooks.pre_genesis cfg.pre_genesis c4) _
                        (λ u c5. continue-OnDone Agrees (get_full_node c5) _ (λ v c6.
                          continue-OnDone Agrees
                            (on_chain
                              (collect_genesis packages docker hooks cfg pow v
                                (other_validators c6.validators) wallets)
                              c6)
                            _ (λ g c7. run_chain-OnDone g c7)))))))

  -- If the hook that a node runs before it starts leaves the genesis files and the node's volume
  -- alone, then after a start of a chain that ends with no error, there is a genesis file that is the
  -- last one written to the volume of every node of the chain.
  pub start-SameGenesis :
      (wallets : List WalletAmount) (c : CosmosChain)
      → (start packages docker hooks cfg wallets c).0 ≡ done tt
      → Agrees (start packages docker hooks cfg wallets c).1
  start-SameGenesis wallets c e =
      at_end (start packages docker hooks cfg wallets c) (start-OnDone wallets c) e
    where
      at_end : (x : Ended (Unit {0}) × CosmosChain) → OnDone Agrees x → x.0 ≡ done tt → Agrees x.1
      at_end (done u, c) h e = h
      at_end (fails x, c) h e = absurd (fails_apart x e)
      at_end (panics, c) h e = absurd (panics_apart e)
      at_end (blocks, c) h e = absurd (blocks_apart e)
