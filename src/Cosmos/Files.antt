-- ===== src/Cosmos/Files.antt =====
-- The files and the genesis of a node (chain/cosmos/chain_node.go): its configuration, its keys and
-- accounts, and the genesis file. The time limit of `AddGenesisAccount` is left out.
use interchaintest.Base.{
  suc, String, Bool, List, [], ◌∷◌, ◌++◌, map, if◌then◌else◌, ℤ, cat, join, pos, negsuc,
  show_digits, nat_eq, string_eq,
}
use interchaintest.Base.Actions.{
  Ended, Action, done, fails, panics, blocks, ◌>>=◌, ◌>>◌, return, wrapping,
}
use interchaintest.Ibc.Config.{ChainConfig, uses_comet_mock}
use interchaintest.Dockerutil.{Host, Docker}
use interchaintest.Testutil.Toml.{Value, scalar, toml, Table, empty, entry, modify_toml_config_file}
use interchaintest.Cosmos.{
  Packages, ChainNode, val_key, comet_mock_raw_port, node_name, node_host_name,
}
use interchaintest.Cosmos.Commands.{home_dir}
use interchaintest.Cosmos.Monikers.{condense_moniker}
use interchaintest.Cosmos.Exec.{
  ended, exec_ok, exec_bin, is_above_sdk47, create_key, account_key_bech32, read_node_file,
  write_node_file, node_id,
}

-- `sdk.Coin`
pub record Coin : Type 0 where
  pub denom : String
  pub amount : ℤ

-- `%s` of the amount, which has at most 256 bits, and the denomination.
unfoldable pub coin_text : Coin → String
coin_text c = cat (amount_text c.amount) c.denom
  where
    amount_text : ℤ → String
    amount_text (pos n) = show_digits 80 n ""
    amount_text (negsuc n) = cat "-" (show_digits 80 (suc n) "")

abbrev pub genesis_file : String
genesis_file = "config/genesis.json"

-- A sequence of tables with one entry.
abbrev pub section_of : String → Table → Table
section_of k t = entry k (toml t) empty

module _ (packages : Packages) (docker : Docker) (cfg : ChainConfig) where
  -- `GenesisFileContent` and `OverwriteGenesisFile`
  unfoldable pub genesis_file_content : ChainNode → Action Host String
  unfolding read_node_file
  genesis_file_content tn =
      wrapping (cat "getting genesis.json content: ")
        (read_node_file packages docker cfg tn genesis_file)

  unfoldable pub overwrite_genesis_file : String → ChainNode → Action Host (Unit {0})
  unfolding write_node_file
  overwrite_genesis_file content tn =
      wrapping (cat "overwriting genesis.json: ")
        (write_node_file packages docker cfg tn content genesis_file)

  -- `PrivValFileContent` and `OverwritePrivValFile`
  unfoldable pub priv_val_file_content : ChainNode → Action Host String
  unfolding read_node_file
  priv_val_file_content tn =
      wrapping (cat "getting priv_validator_key.json content: ")
        (read_node_file packages docker cfg tn "config/priv_validator_key.json")

  unfoldable pub overwrite_priv_val_file : ChainNode → String → Action Host (Unit {0})
  unfolding write_node_file
  overwrite_priv_val_file tn content =
      wrapping (cat "overwriting priv_validator_key.json: ")
        (write_node_file packages docker cfg tn content "config/priv_validator_key.json")

  -- `copyGentx`
  unfoldable pub copy_gentx : ChainNode → ChainNode → Action Host (Unit {0})
  unfolding node_id read_node_file write_node_file
  copy_gentx tn dest_val = do
    nid ← wrapping (cat "getting node ID: ") (node_id packages docker cfg tn)
    let rel_path = cat "config/gentx/gentx-" (cat nid ".json")
    gentx ←
        wrapping (cat "getting gentx content: ") (read_node_file packages docker cfg tn rel_path)
    wrapping (cat "overwriting gentx: ")
        (write_node_file packages docker cfg dest_val gentx rel_path)

  -- A text as a value.
  abbrev pub quoted : String → Value
  quoted s = scalar (packages.quote s)

  -- What `SetTestConfig` sets in config.toml and in app.toml.
  unfoldable pub test_config : ChainNode → Table
  unfolding uses_comet_mock
  test_config tn =
      let laddr =
        if uses_comet_mock cfg
        then cat "tcp://" (cat tn.comet_hostname (cat ":" comet_mock_raw_port))
        else "tcp://0.0.0.0:26657" in
      entry "log_level" (quoted "info") (
        entry "p2p"
          (toml (
            entry "allow_duplicate_ip" (scalar "true")
              (entry "addr_book_strict" (scalar "false") empty)))
          (entry "consensus"
            (toml
              (entry "timeout_commit" (quoted "2s") (entry "timeout_propose" (quoted "2s") empty)))
            (entry "rpc"
              (toml
                (entry "laddr" (quoted laddr) (entry "allowed_origins" (scalar "[\"*\"]") empty)))
              empty)))

  unfoldable pub test_app : Table
  test_app = entry "minimum-gas-prices" (quoted cfg.gas_prices) (
      entry "grpc" (toml (entry "address" (quoted "0.0.0.0:9090") empty)) (
        entry "api"
          (toml (
            entry "enable" (scalar "true") (
              entry "swagger" (scalar "true")
                (entry "address" (quoted "tcp://0.0.0.0:1317") empty))))
          empty))

  -- `SetTestConfig`
  unfoldable pub set_test_config : ChainNode → Action Host (Unit {0})
  unfolding modify_toml_config_file test_config test_app
  set_test_config tn = do
    modify_toml_config_file docker packages.toml tn.volume_name "config/config.toml"
        (test_config tn)
    modify_toml_config_file docker packages.toml tn.volume_name "config/app.toml" test_app

  -- What `SetPeers` sets, and `SetPeers`.
  abbrev pub peers_config : String → Table
  peers_config peers = section_of "p2p" (entry "persistent_peers" (quoted peers) empty)

  unfoldable pub set_peers : ChainNode → String → Action Host (Unit {0})
  unfolding modify_toml_config_file
  set_peers tn peers =
      modify_toml_config_file docker packages.toml tn.volume_name "config/config.toml"
        (peers_config peers)

  -- `InitHomeFolder`
  unfoldable pub init_home_folder : ChainNode → Action Host (Unit {0})
  unfolding exec_bin condense_moniker node_name
  init_home_folder tn = do
    moniker ← ended (condense_moniker packages (node_name cfg tn))
    exec_bin packages docker cfg tn ("init" ∷ moniker ∷ "--chain-id" ∷ cfg.chain_id ∷ [])
    return tt

  -- The first word of a command that stands under `genesis` from SDK v47 on.
  abbrev pub under : String → Bool → List String
  under word b = if b then word ∷ [] else []

  -- `AddGenesisAccount`
  unfoldable pub add_genesis_account : ChainNode → String → List Coin → Action Host (Unit {0})
  unfolding is_above_sdk47 exec_bin coin_text
  add_genesis_account tn address genesis_amount = do
    above ← is_above_sdk47 packages docker cfg tn
    let command =
        under "genesis" above
        ++ ("add-genesis-account" ∷ address ∷ join "," (map coin_text genesis_amount) ∷ [])
    exec_bin packages docker cfg tn
        (command ++ (if cfg.using_chain_id_flag_cli then "--chain-id" ∷ cfg.chain_id ∷ [] else []))
    return tt

  -- `Gentx`, which does not use the name that it is given.
  unfoldable pub gentx : ChainNode → String → Coin → Action Host (Unit {0})
  unfolding is_above_sdk47 exec_bin coin_text
  gentx tn name genesis_self_delegation = do
    above ← is_above_sdk47 packages docker cfg tn
    exec_bin packages docker cfg tn (
        under "genesis" above
        ++ ("gentx"
            ∷ val_key
            ∷ coin_text genesis_self_delegation
            ∷ "--gas-prices"
            ∷ cfg.gas_prices
            ∷ "--gas-adjustment"
            ∷ packages.sprint_float cfg.gas_adjustment
            ∷ "--keyring-backend"
            ∷ "test"
            ∷ "--chain-id"
            ∷ cfg.chain_id
            ∷ []))
    return tt

  -- `CollectGentxs` and `UnsafeResetAll`
  unfoldable pub collect_gentxs : ChainNode → Action Host (Unit {0})
  unfolding is_above_sdk47 exec_ok home_dir
  collect_gentxs tn = do
    above ← is_above_sdk47 packages docker cfg tn
    exec_ok packages docker cfg tn (
        (cfg.bin ∷ under "genesis" above)
        ++ ("collect-gentxs" ∷ "--home" ∷ home_dir packages cfg ∷ []))
    return tt

  unfoldable pub unsafe_reset_all : ChainNode → Action Host (Unit {0})
  unfolding is_above_sdk47 exec_ok home_dir
  unsafe_reset_all tn = do
    above ← is_above_sdk47 packages docker cfg tn
    exec_ok packages docker cfg tn (
        (cfg.bin ∷ under "comet" above)
        ++ ("unsafe-reset-all" ∷ "--home" ∷ home_dir packages cfg ∷ []))
    return tt

  -- `InitValidatorGenTx`
  unfoldable pub init_validator_gen_tx : ChainNode → List Coin → Coin → Action Host (Unit {0})
  unfolding create_key account_key_bech32 add_genesis_account gentx
  init_validator_gen_tx tn genesis_amounts genesis_self_delegation = do
    create_key packages docker cfg tn val_key
    bech32 ← account_key_bech32 packages docker cfg tn val_key
    add_genesis_account tn bech32 genesis_amounts
    gentx tn val_key genesis_self_delegation

  -- `InitFullNodeFiles`
  unfoldable pub init_full_node_files : ChainNode → Action Host (Unit {0})
  unfolding init_home_folder set_test_config
  init_full_node_files tn = do init_home_folder tn; set_test_config tn

  -- The address of a node in `PeerString`, and the loop, which stops at the first error and leaves the
  -- rest empty.
  abbrev pub peer_address : ChainNode → String → String
  peer_address n id = cat id (cat "@" (cat (node_host_name cfg n) ":26656"))

  abbrev pub peer_step :
      List ChainNode
      → ChainNode
      → Ended String × Host
      → Action Host (List String)
      → Ended (List String) × Host
  peer_step rest n (done id, h) more = (do addrs ← more; return (peer_address n id ∷ addrs)) h
  peer_step rest n (fails e, h) more = (done ("" ∷ map (λ _. "") rest), h)
  peer_step rest n (panics, h) more = (panics, h)
  peer_step rest n (blocks, h) more = (blocks, h)

  unfoldable pub peer_addresses : List ChainNode → Action Host (List String)
  unfolding node_id node_host_name
  peer_addresses [] h = (done [], h)
  peer_addresses (n ∷ rest) h =
      peer_step rest n (node_id packages docker cfg n h) (peer_addresses rest)

  -- `(ChainNodes).PeerString`
  unfoldable pub peer_string : List ChainNode → Action Host String
  unfolding peer_addresses
  peer_string nodes = do addrs ← peer_addresses nodes; return (join "," addrs)

  -- `LogGenesisHashes`, without the log.
  unfoldable pub log_genesis_hashes : List ChainNode → Action Host (Unit {0})
  unfolding genesis_file_content
  log_genesis_hashes [] = return tt
  log_genesis_hashes (n ∷ rest) = do genesis_file_content n; log_genesis_hashes rest
