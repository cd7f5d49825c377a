-- ===== src/Relayer/Rly.antt =====
-- The commander of the Go relayer (relayer/rly/cosmos_relayer.go): the commands it is run with, its
-- configuration and what it prints. What encoding/json reads and writes, and `time.ParseDuration`
-- (in nanoseconds), are parameters.
pub mod Commands
pub mod Flags
use Prim.Native.Char.{code}
use Prim.Native.String
use interchaintest.Base.{
  ℕ, ◌+◌, String, Bool, true, ◌&&◌, ◌||◌, Option, none, some, List, [], ◌∷◌, ◌++◌, leb,
  if◌then◌else◌, ◌==◌, ℤ, cat, join, pos, negsuc, show_digits, split, contains, nat_eq, string_eq,
}
use interchaintest.Base.Actions.{Ended, done, fails, panics, blocks}
use interchaintest.Ibc.Config.{ChainConfig}
use interchaintest.Ibc.Channel.{CreateChannelOptions, CreateClientOptions, order_string}
use interchaintest.Ibc.Transfer.{ClientOutput, ConnectionOutput, ChannelOutput}
use interchaintest.Interchain.{Wallet}
use interchaintest.Relayer.Types.{PathUpdateOptions, RelayerCommander}
use interchaintest.Relayer.Rly.Commands.{
  home, create_channel, create_clients, create_client, flush, update_path, link_path,
}

-- `CosmosRelayerChainConfig`, with its value.
pub record ChainEntry : Type 0 where
  pub type : String
  pub account_prefix : String
  pub chain_id : String
  pub debug : Bool
  pub grpc_addr : String
  pub gas_adjustment : ℕ
  pub gas_prices : String
  pub key : String
  pub keyring_backend : String
  pub output_format : String
  pub rpc_addr : String
  pub sign_mode : String
  pub timeout : String
  pub min_loop_duration : ℤ

-- `keyring.BackendTest` is the SDK's.
pub record Json : Type 0 where
  pub backend_test : String
  pub parse_duration : String → Option ℤ
  pub marshal : ChainEntry → Ended String
  pub wallet_model : String → Ended (String × String)
  pub channel_output : String → Option ChannelOutput
  pub connection_output : String → Option ConnectionOutput
  pub client_output : String → Option ClientOutput

abbrev pub chain_type : String → String
chain_type t = if t == "polkadot" || (t == "parachain" || t == "relaychain") then "substrate" else t

-- `unicode.IsSpace`
abbrev pub is_space : ℕ → Bool
is_space c =
    (leb 9 c && leb c 13)
    || (c == 32
        || (c == 133
            || (c == 160
                || (c == 5760
                    || ((leb 8192 c && leb c 8202)
                        || (c == 8232
                            || (c == 8233 || (c == 8239 || (c == 8287 || c == 12288)))))))))

-- `strings.TrimSpace(line) == ""`
unfoldable pub is_blank : String → Bool
is_blank String.[] = true
is_blank (String.◌∷◌ c s) = is_space (code c) && is_blank s

-- `strings.Replace(s, "\n", "", 1)`
unfoldable pub drop_newline : String → String
drop_newline String.[] = ""
drop_newline (String.◌∷◌ c s) = if code c == 10 then s else String.◌∷◌ c (drop_newline s)

-- The lines that are read: a blank one is passed over, and so is one that is no JSON, with a log.
unfoldable pub read_lines : {A : Type 0} → (String → Option A) → List String → List A
unfolding is_blank
read_lines decode [] = []
read_lines decode (l ∷ ls) =
    let rest = read_lines decode ls in
    if is_blank l then rest else elim (decode l) [ none ↦ rest | some a ↦ a ∷ rest ]

module _ (json : Json) where
  abbrev pub duration_of : List String → Option ℤ
  duration_of (k ∷ v ∷ []) = json.parse_duration v
  duration_of _ = none

  -- The loop over the variables of the environment: a malformed one panics.
  unfoldable pub loop_duration : ℤ → List String → Ended ℤ
  unfolding contains split
  loop_duration d [] = done d
  loop_duration d (env ∷ rest) =
      let kept = loop_duration d rest in
      if contains env "ICTEST_RELAYER_LOOP_DURATION"
      then elim (duration_of (split b'=' env)) [ none ↦ panics | some e ↦ loop_duration e rest ]
      else kept

  abbrev pub with_duration : (ℤ → ChainEntry) → Ended ℤ → Ended ChainEntry
  with_duration f (done d) = done (f d)
  with_duration f (fails e) = fails e
  with_duration f panics = panics
  with_duration f blocks = blocks

  -- `ChainConfigToCosmosRelayerChainConfig`
  unfoldable pub chain_config_to_cosmos_relayer_chain_config :
      ChainConfig → String → String → String → Ended ChainEntry
  unfolding loop_duration
  chain_config_to_cosmos_relayer_chain_config cfg key_name rpc grpc =
      with_duration
        (λ d. record {
          type = chain_type cfg.type;
          account_prefix = cfg.bech32_prefix;
          chain_id = cfg.chain_id;
          debug = true;
          grpc_addr = grpc;
          gas_adjustment = cfg.gas_adjustment;
          gas_prices = cfg.gas_prices;
          key = key_name;
          keyring_backend = json.backend_test;
          output_format = "json";
          rpc_addr = rpc;
          sign_mode = "direct";
          timeout = "10s";
          min_loop_duration = d;
        })
        (loop_duration (pos 50000000) cfg.env)

  abbrev pub marshalled : Ended ChainEntry → Ended String
  marshalled (done e) = json.marshal e
  marshalled (fails e) = fails e
  marshalled panics = panics
  marshalled blocks = blocks

  abbrev pub added_wallet : Ended (String × String) → Ended Wallet
  added_wallet (done (a, m)) = done (record { key_name = ""; formatted_address = a; mnemonic = m })
  added_wallet (fails e) = fails e
  added_wallet panics = panics
  added_wallet blocks = blocks

  -- `commander`, with the flags that its start takes besides.
  unfoldable pub commander : List String → RelayerCommander
  unfolding chain_config_to_cosmos_relayer_chain_config drop_newline read_lines split create_channel
      create_clients create_client flush update_path link_path
  commander extra_start_flags = record {
    name = "rly";
    default_container_image = "ghcr.io/cosmos/relayer";
    default_container_version = "v2.5.2";
    docker_user = "100:1000";
    config_content = λ cfg key_name rpc grpc.
        marshalled (chain_config_to_cosmos_relayer_chain_config cfg key_name rpc grpc);
    parse_add_key_output = λ out err. added_wallet (json.wallet_model out);
    parse_restore_key_output = λ out err. done (drop_newline out);
    parse_get_channels_output = λ out err. done (read_lines json.channel_output (split 10 out));
    parse_get_connections_output =
        λ out err. done (read_lines json.connection_output (split 10 out));
    parse_get_clients_output = λ out err. done (read_lines json.client_output (split 10 out));
    init = λ dir. "rly" ∷ "config" ∷ "init" ∷ home dir;
    add_chain_configuration = λ file dir. done ("rly" ∷ "chains" ∷ "add" ∷ "-f" ∷ file ∷ home dir);
    add_key = λ id key coin alg dir. done (
        "rly"
        ∷ "keys"
        ∷ "add"
        ∷ id
        ∷ key
        ∷ "--coin-type"
        ∷ coin
        ∷ "--signing-algorithm"
        ∷ alg
        ∷ home dir);
    create_channel = λ path o dir. done (create_channel path o dir);
    create_clients = λ path o dir. done (create_clients path o dir);
    create_client = λ src dst path o dir. done (create_client src dst path o dir);
    create_connections = λ path dir. done ("rly" ∷ "tx" ∷ "connection" ∷ path ∷ home dir);
    flush = λ path channel dir. done (flush path channel dir);
    generate_path =
        λ src dst path dir. done ("rly" ∷ "paths" ∷ "new" ∷ src ∷ dst ∷ path ∷ home dir);
    update_path = λ path dir o. done (update_path path dir o);
    get_channels = λ id dir. done ("rly" ∷ "q" ∷ "channels" ∷ id ∷ home dir);
    get_connections = λ id dir. done ("rly" ∷ "q" ∷ "connections" ∷ id ∷ home dir);
    get_clients = λ id dir. done ("rly" ∷ "q" ∷ "clients" ∷ id ∷ home dir);
    link_path = λ path dir o clients. done (link_path path dir o clients);
    restore_key = λ id key coin alg mnemonic dir. done (
        "rly"
        ∷ "keys"
        ∷ "restore"
        ∷ id
        ∷ key
        ∷ mnemonic
        ∷ "--coin-type"
        ∷ coin
        ∷ "--signing-algorithm"
        ∷ alg
        ∷ home dir);
    start_relayer = λ dir paths.
        done (("rly" ∷ "start" ∷ "--debug" ∷ home dir) ++ (extra_start_flags ++ paths));
    update_clients = λ path dir. done ("rly" ∷ "tx" ∷ "update-clients" ∷ path ∷ home dir);
    create_wallet = λ name address mnemonic. record {
      key_name = name;
      formatted_address = address;
      mnemonic = mnemonic;
    };
  }
