-- ===== src/Relayer/Hermes/Methods.antt =====
-- The methods of the hermes relayer. What encoding/json reads of a line of output and what go-toml
-- writes of the configuration are parameters.
use interchaintest.Base.{
  String, false, Option, none, some, List, [], ◌∷◌, ◌++◌, if◌then◌else◌, ◌==◌, lookup, has, assign,
  cat, nat_eq, string_eq,
}
use interchaintest.Base.Actions.{
  Ended, Action, done, panics, ◌>>=◌, ◌>>◌, return, errorf, modify, gets, wrapping,
}
use interchaintest.Ibc.Config.{ChainConfig}
use interchaintest.Ibc.Channel.{CreateChannelOptions, CreateClientOptions, order_string}
use interchaintest.Ibc.Transfer.{ChannelOutput}
use interchaintest.Interchain.{Wallet}
use interchaintest.Dockerutil.{Docker}
use interchaintest.Relayer.Types.{RelayerCommander, PathUpdateOptions}
use interchaintest.Relayer.Docker.{
  ExecResult, ended, exec_ok, get_channels, write_file_to_home_dir, add_wallet,
}
use interchaintest.Relayer.Hermes.{
  PathChainConfig, PathConfiguration, ChainEntry, Hermes, on_docker, deferring, lock, unlock,
  r_lock, r_unlock, with_path, write_path, extract_json_result, parse_restore_key_output,
  flag_unless_empty,
}

pub record Formats : Type 0 where
  pub client_id : String → Ended String
  pub connection_ids : String → Ended (String × String)
  pub toml : List ChainEntry → Ended String

-- The addresses, and the wallet of a restored key.
abbrev pub wallet_of : String → String → String → Wallet
wallet_of name address mnemonic = record {
  key_name = name;
  formatted_address = address;
  mnemonic = mnemonic;
}

abbrev pub set_a : (PathChainConfig → PathChainConfig) → PathConfiguration → PathConfiguration
set_a f p = record p { chain_a = f p.chain_a }

abbrev pub set_b : (PathChainConfig → PathChainConfig) → PathConfiguration → PathConfiguration
set_b f p = record p { chain_b = f p.chain_b }

abbrev pub or_else : Option String → String → String
or_else none old = old
or_else (some new) old = new

abbrev pub config_path : String
config_path = ".hermes/config.toml"

module _ (docker : Docker) (c : RelayerCommander) (formats : Formats) where
  -- `r.Exec`, and `return res.Err` on an error.
  unfoldable pub run_hermes : List String → Action Hermes ExecResult
  unfolding exec_ok
  run_hermes cmd = on_docker (exec_ok docker c (done cmd))

  -- `CreateChannel`
  unfoldable pub create_channel : String → CreateChannelOptions → Action Hermes (Unit {0})
  unfolding with_path run_hermes order_string
  create_channel name opts = with_path name (λ p. do
    run_hermes (
        ("hermes"
          ∷ "--json"
          ∷ "create"
          ∷ "channel"
          ∷ "--order"
          ∷ order_string opts.order
          ∷ "--a-chain"
          ∷ p.chain_a.chain_id
          ∷ "--a-port"
          ∷ opts.source_port_name
          ∷ "--b-port"
          ∷ opts.dest_port_name
          ∷ "--a-connection"
          ∷ p.chain_a.connection_id
          ∷ [])
        ++ flag_unless_empty "--channel-version" opts.version)
    write_path name (
        set_b (λ e. record e { port_id = opts.dest_port_name })
          (set_a (λ e. record e { port_id = opts.source_port_name }) p)))

  -- `CreateConnections`
  unfoldable pub create_connections : String → Action Hermes (Unit {0})
  unfolding with_path run_hermes extract_json_result
  create_connections name = with_path name (λ p. do
    res ← run_hermes (
        "hermes" ∷ "--json" ∷ "create" ∷ "connection" ∷ "--a-chain" ∷ p.chain_a.chain_id
        ∷ "--a-client" ∷ p.chain_a.client_id ∷ "--b-client" ∷ p.chain_b.client_id ∷ [])
    ids ← ended (formats.connection_ids (extract_json_result res.stdout))
    write_path name (
        set_b (λ e. record e { connection_id = ids.1 })
          (set_a (λ e. record e { connection_id = ids.0 }) p)))

  abbrev pub update_client_cmd : PathChainConfig → List String
  update_client_cmd e =
      "hermes" ∷ "--json" ∷ "update" ∷ "client" ∷ "--host-chain" ∷ e.chain_id ∷ "--client"
      ∷ e.client_id ∷ []

  -- `UpdateClients`
  unfoldable pub update_clients : String → Action Hermes (Unit {0})
  unfolding with_path run_hermes
  update_clients name = with_path name (λ p. do
    run_hermes (update_client_cmd p.chain_a)
    run_hermes (update_client_cmd p.chain_b)
    return tt)

  abbrev pub create_client_cmd : String → String → CreateClientOptions → List String
  create_client_cmd host reference opts =
      ("hermes" ∷ "--json" ∷ "create" ∷ "client" ∷ "--host-chain" ∷ host ∷ "--reference-chain"
        ∷ reference ∷ [])
      ++ (flag_unless_empty "--trusting-period" opts.trusting_period
          ++ flag_unless_empty "--clock-drift" opts.max_clock_drift)

  -- A client of the reference chain on the host chain: its ID.
  unfoldable pub new_client : String → String → CreateClientOptions → Action Hermes String
  unfolding run_hermes extract_json_result
  new_client host reference opts = do
    res ← run_hermes (create_client_cmd host reference opts)
    ended (formats.client_id (extract_json_result res.stdout))

  -- `CreateClients`
  unfoldable pub create_clients : String → CreateClientOptions → Action Hermes (Unit {0})
  unfolding with_path new_client
  create_clients name opts = with_path name (λ p. do
    a ← new_client p.chain_a.chain_id p.chain_b.chain_id opts
    write_path name (set_a (λ e. record e { client_id = a }) p)
    b ← new_client p.chain_b.chain_id p.chain_a.chain_id opts
    write_path name
        (set_b (λ e. record e { client_id = b }) (set_a (λ e. record e { client_id = a }) p)))

  abbrev pub write_client : String → String → PathConfiguration → String → Action Hermes (Unit {0})
  write_client name src p id =
      if p.chain_a.chain_id == src
      then write_path name (set_a (λ e. record e { chain_id = id }) p)
      else if p.chain_b.chain_id == src
      then write_path name (set_b (λ e. record e { chain_id = id }) p)
      else errorf (cat src " not found in path config")

  -- `CreateClient`
  unfoldable pub create_client :
      String → String → String → CreateClientOptions → Action Hermes (Unit {0})
  unfolding with_path new_client
  create_client src dst name opts =
      with_path name (λ p. do id ← new_client src dst opts; write_client name src p id)

  -- `LinkPath`
  unfoldable pub link_path :
      String → CreateChannelOptions → CreateClientOptions → Action Hermes (Unit {0})
  unfolding r_lock create_clients create_connections create_channel
  link_path name channel_opts client_opts = do
    r_lock
    known ← gets (λ h. has name h.paths)
    modify r_unlock
    (if known then return tt else errorf (cat "path " (cat name " not found")))
    create_clients name client_opts
    create_connections name
    create_channel name channel_opts

  -- `GeneratePath`
  unfoldable pub generate_path : String → String → String → Action Hermes (Unit {0})
  unfolding lock
  generate_path src dst name = do
    lock
    deferring unlock (
        write_path name (record {
          chain_a = record { chain_id = src; client_id = ""; connection_id = ""; port_id = "" };
          chain_b = record { chain_id = dst; client_id = ""; connection_id = ""; port_id = "" };
        }))

  abbrev pub updated : PathUpdateOptions → PathConfiguration → PathConfiguration
  updated o p = record {
    chain_a = record p.chain_a {
      chain_id = or_else o.src_chain_id p.chain_a.chain_id;
      client_id = or_else o.src_client_id p.chain_a.client_id;
      connection_id = or_else o.src_conn_id p.chain_a.connection_id;
    };
    chain_b = record p.chain_b {
      chain_id = or_else o.dst_chain_id p.chain_b.chain_id;
      client_id = or_else o.dst_client_id p.chain_b.client_id;
      connection_id = or_else o.dst_conn_id p.chain_b.connection_id;
    };
  }

  abbrev pub update_found :
      String → PathUpdateOptions → Option PathConfiguration → Action Hermes (Unit {0})
  update_found name o none = errorf (cat "path " (cat name " not found"))
  update_found name o (some p) = write_path name (updated o p)

  -- `UpdatePath`
  unfoldable pub update_path : String → PathUpdateOptions → Action Hermes (Unit {0})
  unfolding lock
  update_path name o = do lock; deferring unlock (λ h. update_found name o (lookup name h.paths) h)

  -- The port of a channel: the empty one, where it is not listed.
  unfoldable pub port_of : String → List ChannelOutput → String
  port_of id [] = ""
  port_of id (ch ∷ chs) = if ch.channel_id == id then ch.port_id else port_of id chs

  -- `Flush` with the channels of the chain.
  abbrev pub clear_packets :
      PathConfiguration → String → List ChannelOutput → Action Hermes (Unit {0})
  clear_packets p id channels = do
    (if port_of id channels == ""
        then errorf (cat "channel " (cat id (cat " not found on chain " p.chain_a.chain_id)))
        else return tt)
    modify r_unlock
    run_hermes (
        "hermes"
        ∷ "clear"
        ∷ "packets"
        ∷ "--chain"
        ∷ p.chain_a.chain_id
        ∷ "--channel"
        ∷ id
        ∷ "--port"
        ∷ port_of id channels
        ∷ [])
    return tt

  -- `Flush` on a path, with the read lock held; the pointer of an unknown path is nil.
  abbrev pub flush_path : String → Option PathConfiguration → Action Hermes (Unit {0})
  flush_path id none h = (panics, h)
  flush_path id (some p) h =
      (on_docker (get_channels docker c p.chain_a.chain_id) >>= clear_packets p id) h

  -- `Flush`
  unfoldable pub flush : String → String → Action Hermes (Unit {0})
  unfolding r_lock get_channels port_of run_hermes
  flush name id = do r_lock; (λ h. flush_path id (lookup name h.paths) h)

  -- `configContent` with the lock held.
  abbrev pub with_chain : ChainEntry → Action Hermes String
  with_chain entry = do
    modify (λ h. record h { chain_configs = h.chain_configs ++ entry ∷ [] })
    configs ← gets (λ h. h.chain_configs)
    ended (formats.toml configs)

  -- `configContent`
  unfoldable pub config_content : ChainEntry → Action Hermes String
  unfolding lock
  config_content entry = do lock; deferring unlock (with_chain entry)

  -- `validateConfig`
  unfoldable pub validate_config : Action Hermes (Unit {0})
  unfolding run_hermes
  validate_config = do
    home ← gets (λ h. h.relayer.home_dir)
    run_hermes ("hermes" ∷ "--config" ∷ cat home (cat "/" config_path) ∷ "config" ∷ "validate" ∷ [])
    return tt

  -- `AddChainConfiguration`
  unfoldable pub add_chain_configuration : ChainEntry → Action Hermes (Unit {0})
  unfolding config_content write_file_to_home_dir validate_config lock
  add_chain_configuration entry = do
    content ← wrapping (cat "failed to generate config content: ") (config_content entry)
    wrapping (cat "failed to write hermes config: ")
        (on_docker (write_file_to_home_dir docker c config_path content))
    validate_config
    lock
    deferring unlock
        (modify (λ h. record h { chain_locks = assign entry.cfg.chain_id false h.chain_locks }))

  abbrev pub add_key_cmd : String → String → String → String → List String
  add_key_cmd chain_id flag file key_name =
      "hermes" ∷ "keys" ∷ "add" ∷ "--chain" ∷ chain_id ∷ flag ∷ file ∷ "--key-name" ∷ key_name ∷ []

  -- The command of RestoreKey, with the file of the mnemonic written where there is one.
  abbrev pub key_command : ChainConfig → String → String → Action Hermes (List String)
  key_command cfg key_name mnemonic = do
    home ← gets (λ h. h.relayer.home_dir)
    (if cfg.type == "namada"
        then return (
            add_key_cmd cfg.chain_id "--key-file"
              (cat home (cat "/" (cat cfg.chain_id "/wallet.toml"))) key_name)
        else do
          wrapping (cat "failed to write mnemonic file: ") (
              on_docker
                (write_file_to_home_dir docker c (cat cfg.chain_id "/mnemonic.txt") mnemonic))
          return (
              add_key_cmd cfg.chain_id "--mnemonic-file"
                (cat home (cat "/" (cat cfg.chain_id "/mnemonic.txt"))) key_name))

  -- `RestoreKey`
  unfoldable pub restore_key : ChainConfig → String → String → Action Hermes (Unit {0})
  unfolding run_hermes write_file_to_home_dir parse_restore_key_output
  restore_key cfg key_name mnemonic = do
    cmd ← key_command cfg key_name mnemonic
    res ← run_hermes cmd
    address ← ended (parse_restore_key_output res.stdout)
    on_docker (add_wallet docker c cfg.chain_id (wallet_of cfg.chain_id address mnemonic))
