-- ===== src/Cosmos.antt =====
-- Package chain/cosmos: the nodes of a Cosmos chain (chain_node.go), their sidecars (sidecar.go), and
-- what the program asks of other packages. The children model the commands of a node, its files and
-- its containers, and the life of a chain.
use interchaintest.Base.{
  ℕ, suc, String, Bool, Option, none, List, [], ◌∷◌, if◌then◌else◌, ◌==◌, ℤ, cat, join, pos, negsuc,
  show_digits, nat_eq, string_eq,
}
use interchaintest.Base.Actions.{Ended}
use interchaintest.Ibc.Image.{DockerImage}
use interchaintest.Ibc.Config.{Ref, ChainConfig, uses_comet_mock}
use interchaintest.Dockerutil.{Calls}
use interchaintest.Dockerutil.Names.{condense_host_name, sanitize_container_name}
use interchaintest.Dockerutil.Lifecycle.{ContainerLifecycle, new_container_lifecycle}
use interchaintest.Testutil.Wait.{Answer}
use interchaintest.Testutil.Toml.{TomlPackage}
pub mod Commands
pub mod Monikers
pub mod Exec
pub mod Included
pub mod Files
pub mod Containers
pub mod Starting
pub mod Chain
pub mod Initialize
pub mod Modules

-- `CosmosTx`
pub record CosmosTx : Type 0 where
  pub tx_hash : String
  pub code : ℤ
  pub raw_log : String

-- Functions of other packages, and what the nodes answer to the program's clients.
pub record Packages : Type 0 where
  -- `path.Join`
  pub path_join : List String → String
  -- `%q`
  pub quote : String → String
  -- `strconv.FormatFloat(f, 'f', -1, 64)` and `fmt.Sprint(f)` of a float64.
  pub format_float : ℕ → String
  pub sprint_float : ℕ → String
  pub max_moniker_length : ℕ
  -- The 32-bit FNV hash of a text in base 36.
  pub hash_base36 : String → String
  -- `json.Unmarshal` into a CosmosTx.
  pub unmarshal_tx : String → Ended CosmosTx
  -- The ID of the key in the text of node_key.json.
  pub node_id : String → Ended String
  pub toml : TomlPackage
  -- `bytes.ReplaceAll`
  pub replace_all : String → String → String → String
  -- `rand.Intn(50_000)`, given the calls before it.
  pub random : Calls → ℕ
  -- The answers of the node of a given name to the questions for its height, from the calls before
  -- them; after `patience` questions, a wait is taken as one that never ends.
  pub heights : String → Calls → ℕ → Answer
  pub patience : ℕ
  pub height_error : ℕ → String
  -- The error of a client that cannot be made, and the error of the last of the questions of whether
  -- a node has caught up, given the calls before them.
  pub new_client : String → Calls → Option String
  pub catching_up : String → Calls → Option String

-- `SidecarProcess`
pub record SidecarProcess : Type 0 where
  pub index : ℕ
  pub validator_process : Bool
  pub pre_start : Bool
  pub process_name : String
  pub test_name : String
  pub volume_name : String
  pub image : DockerImage
  pub ports : List String
  pub start_cmd : List String
  pub env : List String
  pub home_dir : String
  pub container_lifecycle : ContainerLifecycle

-- `ChainNode`, with the hook `preStartNode` by reference.
pub record ChainNode : Type 0 where
  pub volume_name : String
  pub index : ℕ
  pub validator : Bool
  pub test_name : String
  pub image : DockerImage
  pub pre_start_node : Option Ref
  pub sidecars : List SidecarProcess
  pub container_lifecycle : ContainerLifecycle
  pub host_rpc_port : String
  pub host_api_port : String
  pub host_grpc_port : String
  pub host_p2p_port : String
  pub comet_hostname : String

abbrev pub show : ℕ → String
show n = show_digits 20 n ""

-- `%d` of an int.
abbrev pub show_int : ℤ → String
show_int (pos n) = show n
show_int (negsuc n) = cat "-" (show (suc n))

abbrev pub val_key : String
val_key = "validator"

abbrev pub comet_mock_raw_port : String
comet_mock_raw_port = "22331"

module _ (cfg : ChainConfig) where
  -- `NodeType`
  unfoldable pub node_type : ChainNode → String
  node_type tn = if tn.validator then "val" else "fn"

  -- `(*ChainNode).Name`
  unfoldable pub node_name : ChainNode → String
  unfolding node_type sanitize_container_name
  node_name tn =
      join "-"
        (cfg.chain_id ∷ node_type tn ∷ show tn.index ∷ sanitize_container_name tn.test_name ∷ [])

  -- `(*ChainNode).HostName`
  unfoldable pub node_host_name : ChainNode → String
  unfolding condense_host_name node_name
  node_host_name tn = condense_host_name (node_name tn)

  -- `(*SidecarProcess).Name`
  unfoldable pub sidecar_name : SidecarProcess → String
  unfolding sanitize_container_name
  sidecar_name s =
      let name = sanitize_container_name s.test_name in
      if s.validator_process
      then join "-" (cfg.chain_id ∷ s.process_name ∷ "val" ∷ show s.index ∷ name ∷ [])
      else join "-" (cfg.chain_id ∷ s.process_name ∷ show s.index ∷ name ∷ [])

  -- `(*SidecarProcess).HostName`
  unfoldable pub sidecar_host_name : SidecarProcess → String
  unfolding condense_host_name sidecar_name
  sidecar_host_name s = condense_host_name (sidecar_name s)

  -- `NewChainNode`: the volume's name is set later.
  unfoldable pub new_chain_node : Bool → String → DockerImage → ℕ → ChainNode
  unfolding node_name
  new_chain_node validator test_name image index =
      let tn : ChainNode = record {
        volume_name = "";
        index = index;
        validator = validator;
        test_name = test_name;
        image = image;
        pre_start_node = none;
        sidecars = [];
        container_lifecycle = new_container_lifecycle "";
        host_rpc_port = "";
        host_api_port = "";
        host_grpc_port = "";
        host_p2p_port = "";
        comet_hostname = "";
      } in
      record tn { container_lifecycle = new_container_lifecycle (node_name tn) }

  -- `NewSidecar`: the volume's name is set later.
  unfoldable pub new_sidecar :
      Bool
      → Bool
      → String
      → String
      → DockerImage
      → String
      → ℕ
      → List String
      → List String
      → List String
      → SidecarProcess
  unfolding sidecar_name
  new_sidecar validator_process pre_start process_name test_name image home_dir index ports
        start_cmd env =
      let s : SidecarProcess = record {
        index = index;
        validator_process = validator_process;
        pre_start = pre_start;
        process_name = process_name;
        test_name = test_name;
        volume_name = "";
        image = image;
        ports = ports;
        start_cmd = start_cmd;
        env = env;
        home_dir = if home_dir == "" then "/home/sidecar" else home_dir;
        container_lifecycle = new_container_lifecycle "";
      } in
      record s { container_lifecycle = new_container_lifecycle (sidecar_name s) }
