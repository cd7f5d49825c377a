-- ===== src/Relayer/Hermes/Commander.antt =====
-- The commander of the hermes relayer (relayer/hermes/hermes_commander.go): its queries, and what it
-- reads of their results. What encoding/json reads of a line is a parameter.
use interchaintest.Base.{cat, String, List, [], ◌∷◌, ◌++◌, map, nat_eq, string_eq}
use interchaintest.Base.Actions.{Ended, done, fails, panics, blocks}
use interchaintest.Ibc.Transfer.{ClientOutput, ConnectionOutput, ChannelOutput}
use interchaintest.Relayer.Types.{RelayerCommander}
use interchaintest.Relayer.Hermes.{extract_json_result}
use interchaintest.Relayer.Hermes.Methods.{config_path}

-- `ChannelEnd`, with its Remote.
pub record ChannelEnd : Type 0 where
  pub connection_hops : List String
  pub ordering : String
  pub state : String
  pub version : String
  pub remote_channel : String
  pub remote_port : String

-- `ChannelResult`
pub record ChannelResult : Type 0 where
  pub channel_end : ChannelEnd
  pub counter_party_channel_end : ChannelEnd

-- `Result`, with what is read of its ConnectionEnd.
pub record ConnectionResult : Type 0 where
  pub client_id : String
  pub connection_id : String

-- `ClientResult`
pub record ClientResult : Type 0 where
  pub chain_id : String
  pub client_id : String

pub record Queries : Type 0 where
  pub channels : String → Ended (List ChannelResult)
  pub connections : String → Ended (List ConnectionResult)
  pub clients : String → Ended (List ClientResult)

abbrev pub channel_of : ChannelResult → ChannelOutput
channel_of r = record {
  state = r.channel_end.state;
  ordering = r.channel_end.ordering;
  counterparty = record {
    port_id = r.channel_end.remote_port;
    channel_id = r.channel_end.remote_channel;
  };
  connection_hops = r.channel_end.connection_hops;
  version = r.channel_end.version;
  port_id = r.counter_party_channel_end.remote_port;
  channel_id = r.counter_party_channel_end.remote_channel;
}

abbrev pub connection_of : ConnectionResult → ConnectionOutput
connection_of r = record { id = r.connection_id; client_id = r.client_id }

abbrev pub client_of : ClientResult → ClientOutput
client_of r = record { client_id = r.client_id; chain_id = r.chain_id }

abbrev pub each : {A B : Type 0} → (A → B) → Ended (List A) → Ended (List B)
each f (done l) = done (map f l)
each f (fails e) = fails e
each f panics = panics
each f blocks = blocks

abbrev pub config_flag : String → List String
config_flag dir = "hermes" ∷ "--config" ∷ cat dir (cat "/" config_path) ∷ []

-- `commander`: what it leaves to the methods of the hermes relayer panics.
unfoldable pub commander : Queries → List String → RelayerCommander
unfolding extract_json_result
commander queries extra_start_flags = record {
  name = "hermes";
  default_container_image = "ghcr.io/informalsystems/hermes";
  default_container_version = "1.8.2";
  docker_user = "1000:1000";
  config_content = λ cfg key_name rpc grpc. panics;
  parse_add_key_output = λ out err. panics;
  parse_restore_key_output = λ out err. panics;
  parse_get_channels_output =
      λ out err. each channel_of (queries.channels (extract_json_result out));
  parse_get_connections_output =
      λ out err. each connection_of (queries.connections (extract_json_result out));
  parse_get_clients_output = λ out err. each client_of (queries.clients (extract_json_result out));
  init = λ dir. [];
  add_chain_configuration = λ file dir. panics;
  add_key = λ id key coin alg dir. panics;
  create_channel = λ path o dir. panics;
  create_clients = λ path o dir. panics;
  create_client = λ src dst path o dir. panics;
  create_connections = λ path dir. panics;
  flush = λ path channel dir. panics;
  generate_path = λ src dst path dir. panics;
  update_path = λ path dir o. panics;
  get_channels = λ id dir. done (
      "hermes" ∷ "--json" ∷ "query" ∷ "channels" ∷ "--chain" ∷ id ∷ "--show-counterparty"
      ∷ "--verbose" ∷ []);
  get_connections = λ id dir.
      done
        (config_flag dir ++ "--json" ∷ "query" ∷ "connections" ∷ "--chain" ∷ id ∷ "--verbose" ∷ []);
  get_clients =
      λ id dir. done (config_flag dir ++ "--json" ∷ "query" ∷ "clients" ∷ "--host-chain" ∷ id ∷ []);
  link_path = λ path dir o clients. panics;
  restore_key = λ id key coin alg mnemonic dir. panics;
  start_relayer = λ dir paths. done (config_flag dir ++ "start" ∷ extra_start_flags);
  update_clients = λ path dir. panics;
  create_wallet = λ name address mnemonic. record {
    key_name = name;
    formatted_address = address;
    mnemonic = mnemonic;
  };
}
