-- ===== src/Tests/Relayer.antt =====
-- A Go relayer, and a hermes relayer that knows two chains and a path between them.
use interchaintest.Base.{
  ◌≡◌, refl, none, some, has, true, false, [], ◌∷◌, lookup, assign, arith, string_eq, nat_eq,
}
use interchaintest.Base.Actions.{done, fails, panics, blocks, Returns}
use interchaintest.Ibc.Channel.{default_channel_opts, default_client_opts}
use interchaintest.Relayer.Types.{PathUpdateOptions, RelayerCommander, DockerRelayer}
use interchaintest.Relayer.Docker.{get_channels, add_key}
use interchaintest.Relayer.Running.Phases.{Step, Request, start_request, phase_of, serve-Step}
use interchaintest.Relayer.Running.Phases
use interchaintest.Relayer.Rly.{Json, commander}
use interchaintest.Relayer.Rly.Commands.{update_path}
use interchaintest.Relayer.Rly.Flags.{read_update_path, read_update_path_lem}
use interchaintest.Relayer.Hermes.{
  PathConfiguration, Hermes, get_and_lock_path, parse_restore_key_output,
}
use interchaintest.Relayer.Hermes.Methods.{
  Formats, link_path, new_client, create_client, create_clients, port_of, flush,
}
use interchaintest.Relayer.Hermes.Keeping.{locks_of, AreFree}
use interchaintest.Relayer.Hermes.Locks.{IsReady, held}
use interchaintest.Relayer.Hermes.Released.{Call, links_path, serve-AreFree}
use interchaintest.Relayer.Hermes.Released
use interchaintest.Relayer.Hermes.Stuck.{flush-blocks}
use interchaintest.Relayer.Hermes.Renamed.{create_client-panics}
use interchaintest.Relayer.Hermes.Linked.{first_made, create_clients_lem}
use interchaintest.Relayer.Hermes.Commander.{Queries}
use interchaintest.Relayer.Hermes.Commander
use interchaintest.Tests.Dockerutil.{willing, quiet}

abbrev json : Json
json = record {
  backend_test = "test";
  parse_duration = λ s. none;
  marshal = λ e. done "{}";
  wallet_model = λ s. done ("cosmos1", "words");
  channel_output = λ s. none;
  connection_output = λ s. none;
  client_output = λ s. none;
}

abbrev rly : RelayerCommander
rly = commander json []

abbrev idle_relayer : DockerRelayer
idle_relayer = record {
  volume_name = "v";
  test_name = "TestLearn";
  custom_image = none;
  pull_image = true;
  lifecycle = none;
  wallets = [];
  home_dir = "/home/relayer";
  extra_startup_flags = [];
  host = quiet;
  reports = [];
}

serve-Step_example :
    Step
      (phase_of none)
      (start_request ("p" ∷ []) "x")
      (Phases.serve willing rly (start_request ("p" ∷ []) "x") idle_relayer).0
      (phase_of (Phases.serve willing rly (start_request ("p" ∷ []) "x") idle_relayer).1.lifecycle)
unfolding commander
serve-Step_example =
    serve-Step willing rly (start_request ("p" ∷ []) "x") idle_relayer (λ home paths. (_, refl))

abbrev update : PathUpdateOptions
update = record {
  channel_filter = some ("allowlist", "channel-0" ∷ "channel-1" ∷ []);
  src_chain_id = none;
  dst_chain_id = some "juno-2";
  src_client_id = some "07-tendermint-0";
  dst_client_id = none;
  src_conn_id = none;
  dst_conn_id = some "connection-3";
}

read_update_path_lem_example :
    read_update_path (update_path "p" "/home/relayer" update)
    ≡ record update { channel_filter = none }
read_update_path_lem_example = read_update_path_lem "p" "/home/relayer" update

abbrev formats : Formats
formats = record {
  client_id = λ line. done "07-tendermint-0";
  connection_ids = λ line. done ("connection-0", "connection-1");
  toml = λ entries. done "";
}

abbrev path : PathConfiguration
path = record {
  chain_a = record { chain_id = "gaia-1"; client_id = ""; connection_id = ""; port_id = "" };
  chain_b = record { chain_id = "juno-1"; client_id = ""; connection_id = ""; port_id = "" };
}

abbrev hermes : Hermes
hermes = record {
  relayer = idle_relayer;
  paths = ("p", path) ∷ [];
  chain_configs = [];
  chain_locks = ("gaia-1", false) ∷ ("juno-1", false) ∷ [];
  readers = 0;
  writer = false;
}

free : AreFree (locks_of hermes)
unfolding lookup
free = (refl, refl, λ id held h. ground arith)

abbrev linking : Call
linking = links_path "p" default_channel_opts default_client_opts

returns : Returns (Released.serve willing rly formats linking hermes).0
unfolding link_path commander has lookup assign
returns = tt

serve-AreFree_example : AreFree (locks_of (Released.serve willing rly formats linking hermes).1)
serve-AreFree_example = serve-AreFree willing rly formats linking hermes free returns

no_channels : (get_channels willing rly "gaia-1" idle_relayer).0 ≡ done []
unfolding get_channels commander
no_channels = refl

path_known : lookup "p" hermes.paths ≡ some path
unfolding lookup
path_known = refl

no_port : port_of willing rly formats "channel-0" [] ≡ ""
unfolding port_of
no_port = refl

flush-blocks_example :
    ((flush willing rly formats "p" "channel-0" hermes).0
      ≡ fails "channel channel-0 not found on chain gaia-1")
    × ((get_and_lock_path "q" (flush willing rly formats "p" "channel-0" hermes).1).0 ≡ blocks)
flush-blocks_example =
    flush-blocks willing rly formats "p" "channel-0" "q" hermes path [] refl path_known no_channels
      no_port

ready : IsReady path (locks_of hermes)
unfolding lookup
ready = (refl, refl, refl, refl, refl)

made :
    (new_client willing rly formats "gaia-1" "juno-1" default_client_opts (held path hermes)).0
    ≡ done "07-tendermint-0"
unfolding new_client
made = refl

unknown : lookup "07-tendermint-0" hermes.chain_locks ≡ none
unfolding lookup
unknown = refl

create_client-panics_example :
    ((create_client willing rly formats "gaia-1" "juno-1" "p" default_client_opts hermes).0
      ≡ done tt)
    × ((get_and_lock_path "p"
          (create_client willing rly formats "gaia-1" "juno-1" "p" default_client_opts hermes).1).0
        ≡ panics)
create_client-panics_example =
    create_client-panics willing rly formats "p" "juno-1" "07-tendermint-0" default_client_opts path
      hermes free path_known ready made unknown

made_back :
    (new_client willing rly formats "juno-1" "gaia-1" default_client_opts
      (first_made willing rly formats "p" default_client_opts "07-tendermint-0" path hermes)).0
    ≡ done "07-tendermint-0"
unfolding new_client
made_back = refl

create_clients_lem_example :
    ((create_clients willing rly formats "p" default_client_opts hermes).0 ≡ done tt)
    × (lookup "p" (create_clients willing rly formats "p" default_client_opts hermes).1.paths
        ≡ some (record {
          chain_a = record {
            chain_id = "gaia-1";
            client_id = "07-tendermint-0";
            connection_id = "";
            port_id = "";
          };
          chain_b = record {
            chain_id = "juno-1";
            client_id = "07-tendermint-0";
            connection_id = "";
            port_id = "";
          };
        }))
create_clients_lem_example =
    create_clients_lem willing rly formats "p" "07-tendermint-0" "07-tendermint-0"
      default_client_opts path hermes free path_known ready made made_back

abbrev queries : Queries
queries = record { channels = λ l. done []; connections = λ l. done []; clients = λ l. done [] }

address_found :
    parse_restore_key_output "SUCCESS Restored key 'faucet' (cosmos1abc) on chain gaia-1"
    ≡ done "cosmos1abc"
unfolding parse_restore_key_output
address_found = refl

-- A key that hermes is asked to add, rather than to restore.
no_key_added :
    (add_key willing
      (Commander.commander queries [])
      "gaia-1"
      "faucet"
      "118"
      "secp256k1"
      idle_relayer).0
    ≡ panics
unfolding add_key Commander.commander
no_key_added = refl
