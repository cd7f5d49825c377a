-- ===== src/Cosmos/Commands.antt =====
-- The command lines of a node (chain/cosmos/chain_node.go): `BinCommand`, `NodeCommand`, `TxCommand`
-- and `QueryCommand`.
use interchaintest.Base.{
  String, Bool, false, not, ◌&&◌, ◌||◌, List, [], ◌∷◌, ◌++◌, if◌then◌else◌, ◌==◌, cat, nat_eq,
  string_eq,
}
use interchaintest.Ibc.Config.{ChainConfig, uses_comet_mock}
use interchaintest.Cosmos.{Packages, ChainNode, comet_mock_raw_port, node_host_name}

-- The loop of `TxCommand`, for one flag.
unfoldable pub mentions : String → List String → Bool
mentions flag [] = false
mentions flag (w ∷ ws) = w == flag || mentions flag ws

module _ (packages : Packages) (cfg : ChainConfig) where
  -- `(*ChainNode).HomeDir`
  unfoldable pub home_dir : String
  home_dir = packages.path_join ("/var/cosmos-chain" ∷ cfg.name ∷ [])

  -- `(*ChainNode).Bind`
  unfoldable pub bind : ChainNode → List String
  unfolding home_dir
  bind tn = cat tn.volume_name (cat ":" home_dir) ∷ []

  -- `BinCommand`
  unfoldable pub bin_command : List String → List String
  unfolding home_dir
  bin_command command = (cfg.bin ∷ command) ++ ("--home" ∷ home_dir ∷ [])

  -- The endpoint of `NodeCommand`.
  unfoldable pub endpoint : ChainNode → String
  unfolding uses_comet_mock node_host_name
  endpoint tn =
      if uses_comet_mock cfg
      then cat "tcp://" (cat tn.comet_hostname (cat ":" comet_mock_raw_port))
      else cat "tcp://" (cat (node_host_name cfg tn) ":26657")

  -- `NodeCommand`
  unfoldable pub node_command : ChainNode → List String → List String
  unfolding bin_command endpoint
  node_command tn command = bin_command command ++ ("--node" ∷ endpoint tn ∷ [])

  -- `QueryCommand`
  unfoldable pub query_command : ChainNode → List String → List String
  unfolding node_command
  query_command tn command = node_command tn (("query" ∷ command) ++ ("--output" ∷ "json" ∷ []))

  -- A flag and its value, if they are to be appended.
  abbrev pub flag_if : Bool → String → String → List String
  flag_if b flag value = if b then flag ∷ value ∷ [] else []

  -- The flags that `TxCommand` appends to a command that leaves them out.
  unfoldable pub default_flags : List String → List String
  unfolding mentions
  default_flags command =
      let fees = mentions "--fees" command in
      flag_if (not (mentions "--gas-prices" command) && not fees) "--gas-prices" cfg.gas_prices
      ++ (flag_if (not (mentions "--gas-adjustment" command)) "--gas-adjustment"
            (packages.format_float cfg.gas_adjustment)
          ++ flag_if (not (mentions "--gas" command) && not fees && not (cfg.gas == "")) "--gas"
              cfg.gas)

  -- `TxCommand`
  unfoldable pub tx_command : ChainNode → String → List String → List String
  unfolding node_command default_flags
  tx_command tn key_name command =
      let words = "tx" ∷ command in
      node_command tn (
        (words ++ default_flags words)
        ++ ("--from" ∷ key_name ∷ "--keyring-backend" ∷ "test" ∷ "--output" ∷ "json" ∷ "-y"
            ∷ "--chain-id" ∷ cfg.chain_id ∷ []))
