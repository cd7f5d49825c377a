-- ===== src/Relayer/Docker.antt =====
-- The methods of `DockerRelayer` (relayer/docker.go) that run a command to its end. Times and contexts
-- are left out, and a container that is run to its end is one call of the daemon.
use interchaintest.Base.{
  String, Option, none, some, List, [], ◌∷◌, ◌++◌, lookup, assign, ℤ, cat, string_eq,
}
use interchaintest.Base.Actions.{Ended, Action, done, fails, ◌>>=◌, ◌>>◌, return, modify, gets}
use interchaintest.Ibc.Image.{DockerImage}
use interchaintest.Ibc.Config.{ChainConfig}
use interchaintest.Ibc.Channel.{CreateChannelOptions, CreateClientOptions}
use interchaintest.Ibc.Transfer.{ClientOutput, ConnectionOutput, ChannelOutput}
use interchaintest.Interchain.{Wallet}
use interchaintest.Dockerutil.{run, write_file, Host, Docker, ask, tell}
use interchaintest.Dockerutil.Names.{condense_host_name, sanitize_container_name}
use interchaintest.Dockerutil.Lifecycle.{wrapped}
use interchaintest.Relayer.Types.{PathUpdateOptions, RelayerCommander, DockerRelayer}

abbrev pub ended : {S A : Type 0} → Ended A → Action S A
ended e s = (e, s)

abbrev pub on_host : {A : Type 0} → Action Host A → Action DockerRelayer A
on_host m r = let (x, h) = m r.host in (x, record r { host = h })

pub record ExecResult : Type 0 where
  pub err : Option String
  pub stdout : String
  pub stderr : String
  pub exit_code : ℤ

module _ (docker : Docker) (c : RelayerCommander) where
  -- `ContainerImage`
  unfoldable pub container_image : DockerRelayer → DockerImage
  container_image r = elim r.custom_image [
    | some i ↦ i
    | none ↦ record {
      repository = c.default_container_image;
      version = c.default_container_version;
      uid_gid = c.docker_user;
    }
  ]

  -- `Bind`
  abbrev pub bind : DockerRelayer → List String
  bind r = cat r.volume_name (cat ":" r.home_dir) ∷ []

  -- `Name`
  unfoldable pub name_of : DockerRelayer → String
  unfolding sanitize_container_name
  name_of r = cat c.name (cat "-" (sanitize_container_name r.test_name))

  -- `HostName`
  unfoldable pub host_name : String → String
  unfolding condense_host_name
  host_name path = condense_host_name (cat c.name (cat "-" path))

  abbrev pub image_name : DockerRelayer → String
  image_name r = let i = container_image r in cat i.repository (cat ":" i.version)

  -- `Exec`: the command's result, error included, is reported and returned.
  unfoldable pub exec : List String → List String → Action DockerRelayer ExecResult
  unfolding container_image name_of
  exec cmd env r =
      let asked = run (image_name r) cmd env (bind r) in
      let out = docker.result r.host.calls asked in
      let err = docker.fault r.host.calls asked in
      (
        done (record {
          err = err;
          stdout = out.stdout;
          stderr = out.stderr;
          exit_code = out.exit_code;
        }),
        record r {
          host = record r.host { calls = asked ∷ r.host.calls };
          reports =
              r.reports
              ++ record {
                container_name = name_of r;
                command = cmd;
                stdout = out.stdout;
                stderr = out.stderr;
                exit_code = out.exit_code;
                err = err;
              }
                ∷ [];
        },
      )

  abbrev pub or_fail : ExecResult → Option String → Ended ExecResult
  or_fail res none = done res
  or_fail res (some e) = fails e

  -- `if res.Err != nil { return res.Err }` after a command.
  unfoldable pub exec_ok : Ended (List String) → Action DockerRelayer ExecResult
  unfolding exec
  exec_ok cmd = do words ← ended cmd; res ← exec words []; ended (or_fail res res.err)

  -- The methods that run one command and return its error.
  abbrev pub exec_only : (String → Ended (List String)) → Action DockerRelayer (Unit {0})
  exec_only cmd = do home ← gets (λ r. r.home_dir); exec_ok (cmd home); return tt

  unfoldable pub create_channel : String → CreateChannelOptions → Action DockerRelayer (Unit {0})
  unfolding exec_ok
  create_channel path opts = exec_only (λ home. c.create_channel path opts home)

  unfoldable pub create_clients : String → CreateClientOptions → Action DockerRelayer (Unit {0})
  unfolding exec_ok
  create_clients path opts = exec_only (λ home. c.create_clients path opts home)

  unfoldable pub create_client :
      String → String → String → CreateClientOptions → Action DockerRelayer (Unit {0})
  unfolding exec_ok
  create_client src dst path opts = exec_only (λ home. c.create_client src dst path opts home)

  unfoldable pub create_connections : String → Action DockerRelayer (Unit {0})
  unfolding exec_ok
  create_connections path = exec_only (λ home. c.create_connections path home)

  unfoldable pub flush : String → String → Action DockerRelayer (Unit {0})
  unfolding exec_ok
  flush path channel_id = exec_only (λ home. c.flush path channel_id home)

  unfoldable pub generate_path : String → String → String → Action DockerRelayer (Unit {0})
  unfolding exec_ok
  generate_path src dst path = exec_only (λ home. c.generate_path src dst path home)

  unfoldable pub update_path : String → PathUpdateOptions → Action DockerRelayer (Unit {0})
  unfolding exec_ok
  update_path path opts = exec_only (λ home. c.update_path path home opts)

  unfoldable pub link_path :
      String → CreateChannelOptions → CreateClientOptions → Action DockerRelayer (Unit {0})
  unfolding exec_ok
  link_path path channel_opts client_opts =
      exec_only (λ home. c.link_path path home channel_opts client_opts)

  unfoldable pub update_clients : String → Action DockerRelayer (Unit {0})
  unfolding exec_ok
  update_clients path = exec_only (λ home. c.update_clients path home)

  -- The queries: a command and the parser of its output.
  abbrev pub query :
      {A : Type 0}
      → (String → Ended (List String))
      → (String → String → Ended A)
      → Action DockerRelayer A
  query cmd parse = do
    home ← gets (λ r. r.home_dir)
    res ← exec_ok (cmd home)
    ended (parse res.stdout res.stderr)

  unfoldable pub get_channels : String → Action DockerRelayer (List ChannelOutput)
  unfolding exec_ok
  get_channels chain_id = query (c.get_channels chain_id) c.parse_get_channels_output

  unfoldable pub get_connections : String → Action DockerRelayer (List ConnectionOutput)
  unfolding exec_ok
  get_connections chain_id = query (c.get_connections chain_id) c.parse_get_connections_output

  unfoldable pub get_clients : String → Action DockerRelayer (List ClientOutput)
  unfolding exec_ok
  get_clients chain_id = query (c.get_clients chain_id) c.parse_get_clients_output

  -- `AddWallet`
  abbrev pub add_wallet : String → Wallet → Action DockerRelayer (Unit {0})
  add_wallet chain_id w = modify (λ r. record r { wallets = assign chain_id w r.wallets })

  -- `GetWallet`
  abbrev pub get_wallet : String → DockerRelayer → Option Wallet
  get_wallet chain_id r = lookup chain_id r.wallets

  -- `AddKey`
  unfoldable pub add_key : String → String → String → String → Action DockerRelayer Wallet
  unfolding exec_ok
  add_key chain_id key_name coin_type algorithm = do
    w ← query (c.add_key chain_id key_name coin_type algorithm) c.parse_add_key_output
    add_wallet chain_id w
    return w

  -- `RestoreKey`
  unfoldable pub restore_key : ChainConfig → String → String → Action DockerRelayer (Unit {0})
  unfolding exec_ok
  restore_key cfg key_name mnemonic = do
    address ←
        query (c.restore_key cfg.chain_id key_name cfg.coin_type cfg.signing_algorithm mnemonic)
          c.parse_restore_key_output
    add_wallet cfg.chain_id (c.create_wallet "" address mnemonic)

  -- `WriteFileToHomeDir`
  unfoldable pub write_file_to_home_dir : String → String → Action DockerRelayer (Unit {0})
  unfolding ask
  write_file_to_home_dir relative contents r =
      on_host
        (wrapped "failed to write file: "
          (tell docker (write_file r.volume_name relative contents)))
        r

  -- `AddChainConfiguration`
  unfoldable pub add_chain_configuration :
      ChainConfig → String → String → String → Action DockerRelayer (Unit {0})
  unfolding ask exec_ok
  add_chain_configuration cfg key_name rpc_addr grpc_addr r =
      let file = cat cfg.chain_id ".config" in
      (do
        content ← ended (c.config_content cfg key_name rpc_addr grpc_addr)
        on_host
            (wrapped "failed to rly config: " (tell docker (write_file r.volume_name file content)))
        exec_only (c.add_chain_configuration (cat r.home_dir (cat "/" file))))
        r
