-- ===== src/Tests/ChainSpec.antt =====
-- A spec with a name over a table of one built-in configuration.
use interchaintest.Base.{
  String, ◌≡◌, refl, ◌≢◌, Option, none, some, [], ◌∷◌, ◌++◌, Map, lookup, parse_uint, pos, nat_eq,
  string_eq,
}
use interchaintest.Ibc.Config.{
  ChainConfig, is_chain_configured, merge_chain_spec_config, verify_coin_type,
}
use interchaintest.Tests.Ibc.{gaia, override}
use interchaintest.ChainSpec.{
  World, ok, config, config_checked, config_unnamed, config_named, bad_image_at, append_ports,
  share_names, apply_config_overrides, override_fields, suffix_if_needed,
}
use interchaintest.ChainSpec.Versions.{set_versions}
use interchaintest.ChainSpec.Naming.{IsPinned, config-name}
use interchaintest.ChainSpec.Ports.{ports, Passes, config-doubles_ports}

abbrev builtin : Option (Map String ChainConfig)
builtin = some (("gaia", gaia) ∷ [])

abbrev world : World
world = record {
  spec = record {
    name = "gaia";
    chain_name = "hub";
    version = "v19";
    no_host_mount = none;
    chain_config = record override { expose_additional_ports = "8080/tcp" ∷ [] };
    num_validators = none;
    num_full_nodes = none;
    auto_suffix = none;
  };
  counter = 0;
}

abbrev merged : ChainConfig
merged = record gaia {
  name = "hub";
  denom = "stake";
  coin_type = "118";
  env = "A=1" ∷ "B=2" ∷ [];
  images = record { repository = "ghcr.io/gaia"; version = "v19"; uid_gid = "1025:1025" } ∷ [];
  expose_additional_ports = "8080/tcp" ∷ "8080/tcp" ∷ [];
  coin_decimals = some (pos 6);
}

config_runs : (config builtin world).0 ≡ ok merged
unfolding config config_checked config_unnamed config_named bad_image_at append_ports share_names
    apply_config_overrides override_fields suffix_if_needed set_versions lookup is_chain_configured
    merge_chain_spec_config verify_coin_type parse_uint
config_runs = refl

config-name_example : (world.spec.chain_name ≢ "" → merged.name ≡ "hub") × IsPinned merged "v19"
config-name_example = config-name builtin world merged config_runs

config-doubles_ports_example :
    (Passes world → ports (config builtin world).1 ≡ ports world ++ ports world)
    × (¬ Passes world → ports (config builtin world).1 ≡ ports world)
config-doubles_ports_example = config-doubles_ports builtin world
