-- ===== src/Relayer/Types.antt =====
-- The state of a relayer that runs in Docker, the interface of its commands (relayer/docker.go), and
-- its options (relayer/options.go).
use interchaintest.Base.{String, Bool, Option, some, List, [], ◌∷◌, Map, ℤ, string_eq}
use interchaintest.Base.Actions.{Ended}
use interchaintest.Ibc.Image.{DockerImage}
use interchaintest.Ibc.Config.{ChainConfig}
use interchaintest.Ibc.Channel.{CreateChannelOptions, CreateClientOptions}
use interchaintest.Ibc.Transfer.{ClientOutput, ConnectionOutput, ChannelOutput}
use interchaintest.Interchain.{Wallet}
use interchaintest.Dockerutil.{Host}
use interchaintest.Dockerutil.Lifecycle.{ContainerLifecycle}

-- `PathUpdateOptions`, with the rule and the channels of its ChannelFilter.
pub record PathUpdateOptions : Type 0 where
  pub channel_filter : Option (String × List String)
  pub src_chain_id : Option String
  pub dst_chain_id : Option String
  pub src_client_id : Option String
  pub dst_client_id : Option String
  pub src_conn_id : Option String
  pub dst_conn_id : Option String

-- A method may panic, and the parsers may return an error.
pub record RelayerCommander : Type 0 where
  pub name : String
  pub default_container_image : String
  pub default_container_version : String
  pub docker_user : String
  pub config_content : ChainConfig → String → String → String → Ended String
  pub parse_add_key_output : String → String → Ended Wallet
  pub parse_restore_key_output : String → String → Ended String
  pub parse_get_channels_output : String → String → Ended (List ChannelOutput)
  pub parse_get_connections_output : String → String → Ended (List ConnectionOutput)
  pub parse_get_clients_output : String → String → Ended (List ClientOutput)
  pub init : String → List String
  pub add_chain_configuration : String → String → Ended (List String)
  pub add_key : String → String → String → String → String → Ended (List String)
  pub create_channel : String → CreateChannelOptions → String → Ended (List String)
  pub create_clients : String → CreateClientOptions → String → Ended (List String)
  pub create_client : String → String → String → CreateClientOptions → String → Ended (List String)
  pub create_connections : String → String → Ended (List String)
  pub flush : String → String → String → Ended (List String)
  pub generate_path : String → String → String → String → Ended (List String)
  pub update_path : String → String → PathUpdateOptions → Ended (List String)
  pub get_channels : String → String → Ended (List String)
  pub get_connections : String → String → Ended (List String)
  pub get_clients : String → String → Ended (List String)
  pub link_path : String → String → CreateChannelOptions → CreateClientOptions → Ended (List String)
  pub restore_key : String → String → String → String → String → String → Ended (List String)
  pub start_relayer : String → List String → Ended (List String)
  pub update_clients : String → String → Ended (List String)
  pub create_wallet : String → String → String → Wallet

-- What TrackRelayerExec is told, without the times.
pub record ExecReport : Type 0 where
  pub container_name : String
  pub command : List String
  pub stdout : String
  pub stderr : String
  pub exit_code : ℤ
  pub err : Option String

pub record DockerRelayer : Type 0 where
  pub volume_name : String
  pub test_name : String
  pub custom_image : Option DockerImage
  pub pull_image : Bool
  pub lifecycle : Option ContainerLifecycle
  pub wallets : Map String Wallet
  pub home_dir : String
  pub extra_startup_flags : List String
  pub host : Host
  pub reports : List ExecReport

-- The options of relayer/options.go.
pub data RelayerOpt : Type 0 where
  docker_image : DockerImage → RelayerOpt
  home_dir : String → RelayerOpt
  image_pull : Bool → RelayerOpt
  startup_flags : List String → RelayerOpt

-- `CustomDockerImage`
abbrev pub custom_docker_image : String → String → String → RelayerOpt
custom_docker_image repository version uid_gid =
    docker_image (record { repository = repository; version = version; uid_gid = uid_gid })

unfoldable pub apply : RelayerOpt → DockerRelayer → DockerRelayer
apply (docker_image i) r = record r { custom_image = some i }
apply (home_dir d) r = record r { home_dir = d }
apply (image_pull p) r = record r { pull_image = p }
apply (startup_flags fs) r = record r { extra_startup_flags = fs }

unfoldable pub apply_all : List RelayerOpt → DockerRelayer → DockerRelayer
unfolding apply
apply_all [] r = r
apply_all (o ∷ opts) r = apply_all opts (apply o r)
