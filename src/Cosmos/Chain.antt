-- ===== src/Cosmos/Chain.antt =====
-- The life of a Cosmos chain (chain/cosmos/cosmos_chain.go): `Start`, `StopAllNodes` and
-- `StartAllNodes`. The goroutines of an errgroup run one after the other, each to its end; what a
-- cancelled context does to the later ones is among the errors that the daemon may give. The hooks of
-- the configuration are parameters, by reference. The export of the genesis file by environment
-- variables is left out, and so are the locks. Coin decimals are at most 18.
use interchaintest.Base.{
  ℕ, suc, ◌*◌, ◌^◌, String, Bool, true, false, not, ◌&&◌, Option, none, some, List, [], ◌∷◌, ◌++◌,
  has, ℤ, cat, pos, negsuc, nat_eq, string_eq,
}
use interchaintest.Base.Actions.{
  both, Ended, Action, done, fails, panics, blocks, ◌>>=◌, ◌>>◌, return, errorf, modify, gets,
  check, wrapping, panic,
}
use interchaintest.Ibc.Config.{Ref, ChainConfig}
use interchaintest.Interchain.{WalletAmount}
use interchaintest.Dockerutil.{Host, Docker}
use interchaintest.Testutil.Toml.{Table, modify_toml_config_file}
use interchaintest.Cosmos.{Packages, SidecarProcess, ChainNode, val_key}
use interchaintest.Cosmos.Exec.{ended, account_key_bech32, wait_for_blocks}
use interchaintest.Cosmos.Files.{
  Coin, genesis_file_content, overwrite_genesis_file, copy_gentx, set_peers, add_genesis_account,
  collect_gentxs, init_validator_gen_tx, init_full_node_files, peer_string, log_genesis_hashes,
}
use interchaintest.Cosmos.Containers.{
  Site, SidecarSite, on_host, when, start_sidecar, is_down, stop_container, remove_container,
}
use interchaintest.Cosmos.Starting.{create_node_container, start_container}
pub mod Genesis
pub mod Launched
pub mod Kept
pub mod SameGenesis

-- What `Start` reads and changes of a `CosmosChain`.
pub record CosmosChain : Type 0 where
  pub validators : List ChainNode
  pub full_nodes : List ChainNode
  pub sidecars : List SidecarProcess
  pub has_provider : Bool
  pub pre_start_nodes : Option Ref
  pub host : Host

-- The hooks of a configuration and of a node. An override that is no `Toml` is `none`.
pub record Hooks : Type 0 where
  pub modify_genesis_amounts : Ref → ℕ → Coin × Coin
  pub config_file_overrides : Ref → List (String × Option Table)
  pub pre_start_nodes : Ref → Action CosmosChain (Unit {0})
  pub pre_genesis : Ref → Action CosmosChain (Unit {0})
  pub modify_genesis : Ref → ChainConfig → String → Ended String
  pub pre_start_node : Ref → Action Site (Unit {0})

-- An errgroup with a call for each node, by its index from `i` on.
unfoldable pub each_node :
    (ℕ → Action Site (Unit {0}))
    → ℕ
    → List ChainNode
    → Host
    → Ended (Unit {0}) × List ChainNode × Host
each_node m i [] h = (done tt, [], h)
each_node m i (n ∷ ns) h =
    let (r, s) = m i (record { node = n; host = h }) in
    let (r', ns', h') = each_node m (suc i) ns s.host in (both r r', s.node ∷ ns', h')

unfoldable pub each_sidecar :
    Action SidecarSite (Unit {0})
    → List SidecarProcess
    → Host
    → Ended (Unit {0}) × List SidecarProcess × Host
each_sidecar m [] h = (done tt, [], h)
each_sidecar m (p ∷ ps) h =
    let (r, s) = m (record { sidecar = p; host = h }) in
    let (r', ps', h') = each_sidecar m ps s.host in (both r r', s.sidecar ∷ ps', h')

-- One errgroup for the validators, by their index, and for the full nodes.
unfoldable pub groups :
    (ℕ → Action Site (Unit {0})) → (ℕ → Action Site (Unit {0})) → Action CosmosChain (Unit {0})
unfolding each_node
groups on_validator on_full c =
    let (r, vs, h) = each_node on_validator 0 c.validators c.host in
    let (r', fs, h') = each_node on_full 0 c.full_nodes h in
    (both r r', record c { validators = vs; full_nodes = fs; host = h' })

abbrev pub on_nodes : Action Site (Unit {0}) → Action CosmosChain (Unit {0})
on_nodes m = groups (λ i. m) (λ i. m)

abbrev pub on_chain : {A : Type 0} → Action Host A → Action CosmosChain A
on_chain m c = let (r, h) = m c.host in (r, record c { host = h })

-- `Nodes`
abbrev pub nodes : CosmosChain → List ChainNode
nodes c = c.validators ++ c.full_nodes

-- `c.Validators[0]`, which is `GetFullNode` too.
abbrev pub first_validator : List ChainNode → Ended ChainNode
first_validator [] = panics
first_validator (v ∷ vs) = done v

abbrev pub other_validators : List ChainNode → List ChainNode
other_validators [] = []
other_validators (v ∷ vs) = vs

abbrev pub get_full_node : Action CosmosChain ChainNode
get_full_node c = ended (first_validator c.validators) c

-- A call for each element in turn, up to the first error.
unfoldable pub for_each :
    {A : Type 0} → (A → Action Host (Unit {0})) → List A → Action Host (Unit {0})
for_each m [] h = (done tt, h)
for_each m (a ∷ rest) h = (do m a; for_each m rest) h

-- `int64(math.Pow10(d))`; nil panics.
abbrev pub decimal_pow : Option ℤ → Ended ℕ
decimal_pow none = panics
decimal_pow (some (pos n)) = done (10 ^ n)
decimal_pow (some (negsuc n)) = done 0

module _ (packages : Packages) (docker : Docker) (hooks : Hooks) (cfg : ChainConfig) where
  -- The genesis amounts and the self delegation of a validator.
  unfoldable pub amounts : ℕ → ℕ → List Coin × Coin
  amounts pow i = chosen cfg.modify_genesis_amounts
    where
      chosen : Option Ref → List Coin × Coin
      chosen none = (
        record { denom = cfg.denom; amount = pos (10000000 * pow) } ∷ [],
        record { denom = cfg.denom; amount = pos (5000000 * pow) },
      )
      chosen (some r) =
          ((hooks.modify_genesis_amounts r i).0 ∷ [], (hooks.modify_genesis_amounts r i).1)

  abbrev pub overrides : List (String × Option Table)
  overrides = chosen cfg.config_file_overrides
    where
      chosen : Option Ref → List (String × Option Table)
      chosen none = []
      chosen (some r) = hooks.config_file_overrides r

  -- One override of a configuration file.
  abbrev pub override :
      (String → String) → ChainNode → String × Option Table → Action Host (Unit {0})
  override wrap tn (file, none) = errorf (
      cat "provided toml override for file "
        (cat file " is of another type. Expected (DecodedToml)"))
  override wrap tn (file, some t) =
      wrapping wrap (modify_toml_config_file docker packages.toml tn.volume_name file t)

  -- The calls of the first errgroup.
  unfoldable pub init_validator : ℕ → ℕ → Action Site (Unit {0})
  unfolding init_full_node_files for_each modify_toml_config_file init_validator_gen_tx amounts
  init_validator pow i s =
      let tn : ChainNode = record s.node { validator = true } in
      on_host
        (do
          init_full_node_files packages docker cfg tn
          for_each (override (cat "failed to modify toml config file: ") tn) overrides
          when (not cfg.skip_gen_tx)
              (init_validator_gen_tx packages docker cfg tn (amounts pow i).0 (amounts pow i).1))
        (record s { node = tn })

  unfoldable pub init_full_node : ℕ → Action Site (Unit {0})
  unfolding init_full_node_files for_each modify_toml_config_file
  init_full_node i s =
      let tn : ChainNode = record s.node { validator = false } in
      on_host
        (do init_full_node_files packages docker cfg tn; for_each (override (λ e. e) tn) overrides)
        (record s { node = tn })

  abbrev pub run_hook :
      (Ref → Action CosmosChain (Unit {0})) → Option Ref → Action CosmosChain (Unit {0})
  run_hook f none = return tt
  run_hook f (some r) = f r

  -- A validator but the first: its account, and its gentx, to the first.
  unfoldable pub collect_from : ℕ → ChainNode → ChainNode → Action Host (Unit {0})
  unfolding account_key_bech32 add_genesis_account copy_gentx amounts
  collect_from pow validator0 validator_n = do
    bech32 ← account_key_bech32 packages docker cfg validator_n val_key
    add_genesis_account packages docker cfg validator0 bech32 (amounts pow 0).0
    when (not cfg.skip_gen_tx) (copy_gentx packages docker cfg validator_n validator0)

  -- The first validator's genesis, with the accounts and the gentxs of all.
  unfoldable pub collect_genesis :
      ℕ → ChainNode → List ChainNode → List WalletAmount → Action Host String
  unfolding for_each collect_from add_genesis_account collect_gentxs genesis_file_content
  collect_genesis pow validator0 others wallets = do
    for_each (collect_from pow validator0) others
    for_each
        (λ w.
          add_genesis_account packages docker cfg validator0 w.address
            (record { denom = w.denom; amount = w.amount } ∷ []))
        wallets
    when (not cfg.skip_gen_tx) (collect_gentxs packages docker cfg validator0)
    genbz ← genesis_file_content packages docker cfg validator0
    let replaced = packages.replace_all genbz "\"stake\"" (cat "\"" (cat cfg.denom "\""))
    ended (modified cfg.modify_genesis replaced)
    where
      modified : Option Ref → String → Ended String
      modified none g = done g
      modified (some r) g = hooks.modify_genesis r cfg g

  -- A sidecar of the chain, before the nodes.
  unfoldable pub prestart : Action SidecarSite (Unit {0})
  unfolding is_down start_sidecar
  prestart = do
    down ← is_down docker cfg
    p ← gets (λ s. s.sidecar)
    when (p.pre_start && down) (start_sidecar docker cfg)

  unfoldable pub prestart_sidecars : Action CosmosChain (Unit {0})
  unfolding each_sidecar prestart
  prestart_sidecars c =
      let (r, ps, h) = each_sidecar prestart c.sidecars c.host in
      (r, record c { sidecars = ps; host = h })

  unfoldable pub join_peers : String → Action Site (Unit {0})
  unfolding set_peers start_container
  join_peers peers = do
    tn ← gets (λ s. s.node)
    on_host (set_peers packages docker cfg tn peers)
    start_container packages docker cfg hooks.pre_start_node

  -- From the genesis file that every node is given to the last start, and the blocks that follow.
  unfoldable pub after_genesis : List ChainNode → Action CosmosChain (Unit {0})
  unfolding log_genesis_hashes prestart_sidecars groups create_node_container peer_string join_peers
  after_genesis chain_nodes = do
    on_chain (log_genesis_hashes packages docker cfg chain_nodes)
    prestart_sidecars
    on_nodes (create_node_container packages docker cfg)
    created ← gets nodes
    peers ← on_chain (peer_string packages docker cfg created)
    on_nodes (join_peers peers)

  unfoldable pub launch : String → Action CosmosChain (Unit {0})
  unfolding for_each overwrite_genesis_file after_genesis
  launch genbz = do
    chain_nodes ← gets nodes
    on_chain (for_each (overwrite_genesis_file packages docker cfg genbz) chain_nodes)
    after_genesis chain_nodes

  unfoldable pub run_chain : String → Action CosmosChain (Unit {0})
  unfolding launch wait_for_blocks
  run_chain genbz = do
    launch genbz
    tn ← get_full_node
    on_chain (wait_for_blocks packages docker cfg 2 tn)

  abbrev pub without_provider : Option Ref → Bool → Option String
  without_provider (some r) false =
      some "don't set ConsumerCopyProviderKey if it's not a consumer chain"
  without_provider r b = none

  -- `(*CosmosChain).Start`
  unfoldable pub start : List WalletAmount → Action CosmosChain (Unit {0})
  unfolding groups init_validator init_full_node collect_genesis run_chain
  start additional_genesis_wallets = do
    has ← gets (λ c. c.has_provider)
    check (without_provider cfg.interchain_security_config.consumer_copy_provider_key has)
    pow ← ended (decimal_pow cfg.coin_decimals)
    groups (init_validator pow) init_full_node
    hook ← gets (λ c. c.pre_start_nodes)
    run_hook hooks.pre_start_nodes hook
    run_hook hooks.pre_genesis cfg.pre_genesis
    validator0 ← get_full_node
    others ← gets (λ c. other_validators c.validators)
    genbz ← on_chain (collect_genesis pow validator0 others additional_genesis_wallets)
    run_chain genbz

  -- `StopAllNodes` and `StartAllNodes`
  unfoldable pub stop_all_nodes : Action CosmosChain (Unit {0})
  unfolding groups stop_container remove_container
  stop_all_nodes = on_nodes (do stop_container docker; remove_container docker)

  unfoldable pub start_all_nodes : Action CosmosChain (Unit {0})
  unfolding groups create_node_container start_container
  start_all_nodes = on_nodes (do
    create_node_container packages docker cfg
    start_container packages docker cfg hooks.pre_start_node)
