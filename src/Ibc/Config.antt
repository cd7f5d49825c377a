-- ===== src/Ibc/Config.antt =====
-- `ChainConfig` of ibc/types.go: its record, `MergeChainSpecConfig`, `VerifyCoinType` and
-- `IsFullyConfigured`. A func value, a map of overrides and an encoding configuration are known
-- here only by reference, and nil is `none`; a float64 is its bit pattern; a slice is its elements.
use interchaintest.Base.{
  ℕ, String, Bool, true, false, not, ◌&&◌, Option, none, some, List, [], ◌∷◌, ◌++◌, ltb, leb,
  if◌then◌else◌, ◌==◌, Map, ℤ, parse_uint, string_eq,
}
use interchaintest.Ibc.Image.{DockerImage, is_fully_configured}
pub mod Merging
pub mod Overrides

-- A Go value that the program copies and compares with nil only.
abbrev pub Ref : Type 0
Ref = ℕ

pub record CometMockConfig : Type 0 where
  pub image : DockerImage
  pub block_time_ms : ℤ

pub record SidecarConfig : Type 0 where
  pub process_name : String
  pub image : DockerImage
  pub home_dir : String
  pub ports : List String
  pub start_cmd : List String
  pub env : List String
  pub pre_start : Bool
  pub validator_process : Bool

pub record IcsConfig : Type 0 where
  pub provider_ver_override : String
  pub consumer_ver_override : String
  pub consumer_copy_provider_key : Option Ref

pub record GenesisConfig : Type 0 where
  pub contents : List ℕ
  pub all_validators : Bool
  pub max_vals : ℤ

pub record ChainConfig : Type 0 where
  pub type : String
  pub name : String
  pub chain_id : String
  pub images : List DockerImage
  pub comet_mock : CometMockConfig
  pub bin : String
  pub bech32_prefix : String
  pub denom : String
  pub coin_type : String
  pub signing_algorithm : String
  pub gas_prices : String
  pub gas_adjustment : ℕ
  pub gas : String
  pub trusting_period : String
  pub no_host_mount : Bool
  pub skip_gen_tx : Bool
  pub pre_genesis : Option Ref
  pub modify_genesis : Option Ref
  pub modify_genesis_amounts : Option Ref
  pub config_file_overrides : Option Ref
  pub encoding_config : Option Ref
  pub using_chain_id_flag_cli : Bool
  pub sidecar_configs : List SidecarConfig
  pub interchain_security_config : IcsConfig
  pub coin_decimals : Option ℤ
  pub host_port_override : Option (Map ℤ ℤ)
  pub expose_additional_ports : List String
  pub additional_start_args : List String
  pub env : List String
  pub genesis : Option GenesisConfig

-- `(ChainConfig).UsesCometMock`
unfoldable pub uses_comet_mock : ChainConfig → Bool
uses_comet_mock c =
    not (c.comet_mock.image.repository == "") && not (c.comet_mock.image.version == "")

-- `f > 0` on the bits of a float64: the sign is clear, and it is no zero and no NaN.
abbrev pub float_pos : ℕ → Bool
float_pos bits = ltb 0 bits && leb bits 0x7ff0000000000000

-- The three ways in which `MergeChainSpecConfig` overrides a field: unless it is "", unless the
-- slice has no elements, unless it is nil.
abbrev pub or_text : String → String → String
or_text new old = if new == "" then old else new

abbrev pub or_list {ℓ} : {A : Type ℓ} → List A → List A → List A
or_list [] old = old
or_list (x ∷ xs) old = x ∷ xs

abbrev pub or_value {ℓ} : {A : Type ℓ} → Option A → Option A → Option A
or_value none old = old
or_value (some a) old = some a

-- `cmp.Equal(c, ICSConfig{})`
abbrev pub is_zero_ics : IcsConfig → Bool
is_zero_ics c =
    c.provider_ver_override == ""
    && c.consumer_ver_override == ""
    && is_nil c.consumer_copy_provider_key
  where
    is_nil : Option Ref → Bool
    is_nil none = true
    is_nil (some r) = false

-- `(ChainConfig).MergeChainSpecConfig`
unfoldable pub merge_chain_spec_config : ChainConfig → ChainConfig → ChainConfig
unfolding uses_comet_mock
merge_chain_spec_config c other = record c {
  type = or_text other.type c.type;
  chain_id = or_text other.chain_id c.chain_id;
  images = or_list other.images c.images;
  comet_mock = if uses_comet_mock other then other.comet_mock else c.comet_mock;
  bin = or_text other.bin c.bin;
  bech32_prefix = or_text other.bech32_prefix c.bech32_prefix;
  denom = or_text other.denom c.denom;
  coin_type = or_text other.coin_type c.coin_type;
  gas_prices = or_text other.gas_prices c.gas_prices;
  gas_adjustment =
      if float_pos other.gas_adjustment then other.gas_adjustment else c.gas_adjustment;
  gas = or_text other.gas c.gas;
  trusting_period = or_text other.trusting_period c.trusting_period;
  modify_genesis = or_value other.modify_genesis c.modify_genesis;
  skip_gen_tx = if other.skip_gen_tx then true else c.skip_gen_tx;
  pre_genesis = or_value other.pre_genesis c.pre_genesis;
  config_file_overrides = or_value other.config_file_overrides c.config_file_overrides;
  encoding_config = or_value other.encoding_config c.encoding_config;
  sidecar_configs = or_list other.sidecar_configs c.sidecar_configs;
  coin_decimals = or_value other.coin_decimals c.coin_decimals;
  additional_start_args = c.additional_start_args ++ other.additional_start_args;
  env = c.env ++ other.env;
  expose_additional_ports = c.expose_additional_ports ++ other.expose_additional_ports;
  interchain_security_config =
      if not (is_zero_ics other.interchain_security_config)
      then other.interchain_security_config
      else c.interchain_security_config;
  genesis = or_value other.genesis c.genesis;
}

-- `(ChainConfig).VerifyCoinType`: the coin type, with the default of the struct tag; `none` is the
-- error of `strconv.ParseUint`.
unfoldable pub verify_coin_type : ChainConfig → Option String
verify_coin_type c = if c.coin_type == "" then checked "118" else checked c.coin_type
  where
    checked : String → Option String
    checked s = elim (parse_uint 32 s) [ none ↦ none | some n ↦ some s ]

unfoldable pub all_configured : List DockerImage → Bool
all_configured [] = true
all_configured (i ∷ is) = is_fully_configured i && all_configured is

abbrev pub is_empty {ℓ} : {A : Type ℓ} → List A → Bool
is_empty [] = true
is_empty (x ∷ xs) = false

-- `(ChainConfig).IsFullyConfigured`
unfoldable pub is_chain_configured : ChainConfig → Bool
unfolding all_configured is_fully_configured
is_chain_configured c =
    all_configured c.images
    && not (c.type == "")
    && not (c.name == "")
    && not (c.chain_id == "")
    && not (is_empty c.images)
    && not (c.bin == "")
    && not (c.bech32_prefix == "")
    && not (c.denom == "")
    && not (c.gas_prices == "")
    && not (c.trusting_period == "")

-- `ChainConfig{}`
abbrev pub zero_config : ChainConfig
zero_config = record {
  type = "";
  name = "";
  chain_id = "";
  images = [];
  comet_mock = record {
    image = record { repository = ""; version = ""; uid_gid = "" };
    block_time_ms = ℤ.pos 0;
  };
  bin = "";
  bech32_prefix = "";
  denom = "";
  coin_type = "";
  signing_algorithm = "";
  gas_prices = "";
  gas_adjustment = 0;
  gas = "";
  trusting_period = "";
  no_host_mount = false;
  skip_gen_tx = false;
  pre_genesis = none;
  modify_genesis = none;
  modify_genesis_amounts = none;
  config_file_overrides = none;
  encoding_config = none;
  using_chain_id_flag_cli = false;
  sidecar_configs = [];
  interchain_security_config = record {
    provider_ver_override = "";
    consumer_ver_override = "";
    consumer_copy_provider_key = none;
  };
  coin_decimals = none;
  host_port_override = none;
  expose_additional_ports = [];
  additional_start_args = [];
  env = [];
  genesis = none;
}
