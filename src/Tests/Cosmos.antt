-- ===== src/Tests/Cosmos.antt =====
-- A chain of two validators and a full node whose commands all succeed.
use interchaintest.Base.{
  ℕ, ◌+◌, String, ◌≡◌, refl, Bool, true, false, none, some, List, [], ◌∷◌, arith, cat, join, pos,
  show_digits, nat_eq, string_eq,
}
use interchaintest.Base.Actions.{done, return}
use interchaintest.Ibc.Config.{ChainConfig}
use interchaintest.Dockerutil.{ask}
use interchaintest.Testutil.Wait.{height, behind, update, wait_for_delta}
use interchaintest.Testutil.Toml.{empty, modify_toml_config_file}
use interchaintest.Cosmos.{Packages, ChainNode, new_chain_node}
use interchaintest.Cosmos.Monikers.{condense_moniker}
use interchaintest.Cosmos.Monikers.Laws.{Fits, condense_moniker-le}
use interchaintest.Cosmos.Exec.{
  exec, exec_ok, exec_bin, exec_query, wait_for_blocks, exec_tx, create_key, account_key_bech32,
  key_bech32, is_above_sdk47, has_command, node_id, read_node_file, write_node_file,
}
use interchaintest.Cosmos.Included.{Included, exec_tx-Included}
use interchaintest.Cosmos.Chain.{
  CosmosChain, Hooks, start, groups, each_node, each_sidecar, init_validator, init_full_node,
  for_each, collect_genesis, collect_from, run_chain, launch, after_genesis, prestart_sidecars,
}
use interchaintest.Cosmos.Chain.Kept.{LeavesGenesis}
use interchaintest.Cosmos.Chain.SameGenesis.{Agrees, start-SameGenesis}
use interchaintest.Cosmos.Files.{
  init_full_node_files, init_home_folder, set_test_config, init_validator_gen_tx,
  add_genesis_account, gentx, copy_gentx, collect_gentxs, genesis_file_content,
  overwrite_genesis_file, log_genesis_hashes,
}
use interchaintest.Cosmos.Starting.{create_node_container}
use interchaintest.Interchain.{WalletAmount}
use interchaintest.Ibc.Image.{DockerImage}
use interchaintest.Cosmos.Initialize.{
  make_all, copied, owned_volume, node_sidecars, make_node, initialize_chain_nodes,
}
use interchaintest.Cosmos.Initialize.Numbering.{
  IsWellNumbered, initialize_chain_nodes-IsWellNumbered,
}
use interchaintest.Tests.Ibc.{gaia}
use interchaintest.Tests.Dockerutil.{willing, quiet}

abbrev packages : Packages
packages = record {
  path_join = join "/";
  quote = λ s. cat "\"" (cat s "\"");
  format_float = λ f. "1.3";
  sprint_float = λ f. "1.3";
  max_moniker_length = 70;
  hash_base36 = λ s. "1abcdef";
  unmarshal_tx = λ s. done (record { tx_hash = "A1"; code = pos 0; raw_log = "" });
  node_id = λ s. done "0123";
  toml = record { unmarshal = λ s. done empty; encode = λ t. done "" };
  replace_all = λ s old new. s;
  random = λ calls. 7;
  heights = λ name calls k. height (k + 10);
  patience = 9;
  height_error = λ e. "connection refused";
  new_client = λ addr calls. none;
  catching_up = λ name calls. none;
}

condense_moniker-le_example : Fits (
    condense_moniker packages
      "gaia-1-val-0-TestAVeryLongNameOfATestThatDoesNotFitInTheSeventyBytesOfAMoniker")
condense_moniker-le_example =
    condense_moniker-le packages
      "gaia-1-val-0-TestAVeryLongNameOfATestThatDoesNotFitInTheSeventyBytesOfAMoniker" refl
      (omega arith)

abbrev validator : ℕ → ChainNode
validator i =
    record (new_chain_node gaia true "TestTransfer"
      (record { repository = "ghcr.io/gaia"; version = "v19"; uid_gid = "1025:1025" }) i) {
        volume_name = "v";
      }

abbrev send : List String
send = "bank" ∷ "send" ∷ "alice" ∷ "cosmos1" ∷ "5uatom" ∷ []

sent : (exec_tx packages willing gaia (validator 0) "alice" send quiet).0 ≡ done "A1"
unfolding exec_tx exec_ok exec exec_query wait_for_blocks wait_for_delta behind update
sent = refl

exec_tx-Included_example :
    Included packages willing gaia
      (validator 0)
      "alice"
      send
      quiet.calls
      "A1"
      (exec_tx packages willing gaia (validator 0) "alice" send quiet).1.calls
exec_tx-Included_example =
    exec_tx-Included packages willing gaia (validator 0) "alice" send quiet "A1" sent

-- The hook of a node does nothing, and a genesis file is kept as it is.
abbrev hooks : Hooks
hooks = record {
  modify_genesis_amounts = λ r i.
      (record { denom = "uatom"; amount = pos 1 }, record { denom = "uatom"; amount = pos 1 });
  config_file_overrides = λ r. [];
  pre_start_nodes = λ r. return tt;
  pre_genesis = λ r. return tt;
  modify_genesis = λ r cfg g. done g;
  pre_start_node = λ r. return tt;
}

abbrev config : ChainConfig
config = record gaia { coin_decimals = some (pos 6) }

abbrev node : Bool → ℕ → String → ChainNode
node b i volume =
    record (new_chain_node config b "TestTransfer"
      (record { repository = "ghcr.io/gaia"; version = "v19"; uid_gid = "1025:1025" }) i) {
        volume_name = volume;
      }

abbrev chain : CosmosChain
chain = record {
  validators = node true 0 "val-0" ∷ node true 1 "val-1" ∷ [];
  full_nodes = node false 0 "fn-0" ∷ [];
  sidecars = [];
  has_provider = false;
  pre_start_nodes = none;
  host = quiet;
}

leaves : LeavesGenesis packages willing config hooks.pre_start_node
leaves g vs r w s h = h

abbrev faucet : List WalletAmount
faucet = record { address = "cosmos1"; denom = "uatom"; amount = pos 100 } ∷ []

started : (start packages willing hooks config faucet chain).0 ≡ done tt
unfolding start groups each_node init_validator init_full_node init_full_node_files init_home_folder
    set_test_config modify_toml_config_file ask exec exec_ok exec_bin init_validator_gen_tx
    create_key account_key_bech32 key_bech32 add_genesis_account gentx is_above_sdk47 has_command
    for_each collect_genesis collect_from copy_gentx node_id read_node_file write_node_file
    collect_gentxs genesis_file_content run_chain launch overwrite_genesis_file after_genesis
    log_genesis_hashes prestart_sidecars each_sidecar create_node_container join show_digits
    new_chain_node behind update
started = refl

start-SameGenesis_example :
    Agrees packages willing hooks config leaves (start packages willing hooks config faucet chain).1
start-SameGenesis_example =
    start-SameGenesis packages willing hooks config leaves faucet chain started

abbrev grown_chain : CosmosChain
grown_chain = record chain {
  validators = node true 0 "val-0" ∷ node true 1 "val-1" ∷ node true 2 "" ∷ [];
  full_nodes = node false 0 "fn-0" ∷ node false 1 "" ∷ [];
}

abbrev gaia_image : DockerImage
gaia_image = record { repository = "ghcr.io/gaia"; version = "v19"; uid_gid = "1025:1025" }

added :
    (initialize_chain_nodes willing config "TestTransfer" gaia_image 3 2 chain).0 ≡ done grown_chain
unfolding initialize_chain_nodes make_all make_node node_sidecars owned_volume ask copied
    new_chain_node
added = refl

chain-IsWellNumbered : IsWellNumbered 2 1 chain
unfolding new_chain_node
chain-IsWellNumbered = (((refl, (refl, tt)), refl), ((refl, tt), refl))

initialize_chain_nodes-IsWellNumbered_example : IsWellNumbered 3 2 grown_chain
initialize_chain_nodes-IsWellNumbered_example =
    initialize_chain_nodes-IsWellNumbered willing config "TestTransfer" gaia_image 2 1 3 2 chain
      grown_chain chain-IsWellNumbered (omega arith) (omega arith) added
