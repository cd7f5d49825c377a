-- ===== src/ChainSpec.antt =====
-- chainspec.go: how a ChainSpec becomes the configuration of a chain. `Config` changes the spec that
-- it is called on and the package's counter of suffixes, so a call takes both and gives both back.
-- The built-in configurations are read from a file, and are a parameter.
use interchaintest.Base.{
  ℕ, suc, ◌+◌, ◌-◌, ◌^◌, String, Bool, true, false, not, ◌&&◌, ◌||◌, Option, none, some, List, [],
  ◌∷◌, ◌++◌, ltb, if◌then◌else◌, ◌==◌, Map, lookup, ℤ, cat, pos, show_digits, ◌%◌, nat_eq,
  string_eq,
}
use interchaintest.Ibc.Image.{DockerImage, validate, is_valid}
use interchaintest.Ibc.Config.{
  ChainConfig, merge_chain_spec_config, verify_coin_type, is_chain_configured, zero_config,
  or_value,
}
pub mod Versions
pub mod Naming
pub mod Ports
use Versions.{
  set_versions, Versioned, SpecError, Status, fine, error, index_panic, version_empty, bad_image,
  name_required, builtin_failed, bad_coin_type, no_configuration,
}

pub record ChainSpec : Type 0 where
  pub name : String
  pub chain_name : String
  pub version : String
  pub no_host_mount : Option Bool
  pub chain_config : ChainConfig
  pub num_validators : Option ℤ
  pub num_full_nodes : Option ℤ
  pub auto_suffix : Option String

-- A spec, and `suffixCounter`: an int32 as its bit pattern.
pub record World : Type 0 where
  pub spec : ChainSpec
  pub counter : ℕ

abbrev pub show_int32 : ℕ → String
show_int32 bits =
    if ltb bits (2 ^ 31)
    then show_digits 10 bits ""
    else cat "-" (show_digits 10 (2 ^ 32 - bits) "")

-- `(*ChainSpec).suffix`: made once for a spec.
unfoldable pub suffix : World → String × World
suffix w = elim w.spec.auto_suffix [
  | some s ↦ (s, w)
  | none ↦
      let next : ℕ = (w.counter + 1) % 2 ^ 32 in
      let s = cat "-" (show_int32 next) in
      (s, record { spec = record w.spec { auto_suffix = some s }; counter = next })
]

abbrev pub or_else : String → String → String
or_else s default = if s == "" then default else s

abbrev pub some_or {ℓ} : {A : Type ℓ} → Option A → A → A
some_or none a = a
some_or (some b) a = b

-- The switch on the coin type, where no decimals are given.
unfoldable pub default_decimals : String → Option ℤ
default_decimals t =
    if t == "0" || t == "2" || t == "3" || t == "145"
    then some (pos 8)
    else if t == "60"
    then some (pos 18)
    else if t == "118" || t == "330" || t == "529"
    then some (pos 6)
    else if t == "931"
    then some (pos 8)
    else none

-- The first half of `applyConfigOverrides`: every field but the versions of the images. `name_suffix`
-- and `id_suffix` are what `suffix` gave where the code asks for it.
unfoldable pub override_fields : ChainSpec → String → ChainConfig → ChainConfig
unfolding default_decimals
override_fields s suffix cfg =
    let own = s.chain_config in
    record cfg {
      name = or_else s.chain_name (cat s.name suffix);
      chain_id = or_else cfg.chain_id (cat (or_else s.chain_name s.name) suffix);
      no_host_mount = some_or s.no_host_mount cfg.no_host_mount;
      skip_gen_tx = if own.skip_gen_tx then true else cfg.skip_gen_tx;
      modify_genesis = or_value own.modify_genesis cfg.modify_genesis;
      pre_genesis = or_value own.pre_genesis cfg.pre_genesis;
      modify_genesis_amounts = or_value own.modify_genesis_amounts cfg.modify_genesis_amounts;
      host_port_override = or_value own.host_port_override cfg.host_port_override;
      genesis = or_value own.genesis cfg.genesis;
      using_chain_id_flag_cli = own.using_chain_id_flag_cli;
      coin_decimals = or_value cfg.coin_decimals (default_decimals cfg.coin_type);
    }

-- `suffix` is called for the name, for the ID, for both or not at all: the first call makes it.
unfoldable pub suffix_if_needed : ChainConfig → World → String × World
unfolding suffix
suffix_if_needed cfg w = if w.spec.chain_name == "" || cfg.chain_id == "" then suffix w else ("", w)

pub data SpecResult : Type 0 where
  ok : ChainConfig → SpecResult
  err : SpecError → SpecResult
  panics : SpecResult

abbrev pub finish : ChainConfig → Status → SpecResult
finish cfg fine = ok cfg
finish cfg (error e) = err e
finish cfg index_panic = panics

-- `(*ChainSpec).applyConfigOverrides`. Where `cfg` is the spec's own configuration its images are the
-- same slice, so the spec's images change too.
unfoldable pub apply_config_overrides : Bool → ChainConfig → World → SpecResult × World
apply_config_overrides own cfg w =
    let (suf, w') = suffix_if_needed cfg w in
    let c = override_fields w.spec suf cfg in
    let v = set_versions c.type w.spec.name w.spec.version w.spec.chain_config.images c.images in
    (
      finish (record c { images = v.images }) v.status,
      if own
          then record w' {
            spec = record w'.spec {
              chain_config = record w'.spec.chain_config { images = v.images };
            };
          }
          else w',
    )

-- The version of the first image, "" if there is none.
abbrev pub first_version : List DockerImage → String
first_version [] = ""
first_version (i ∷ is) = i.version

unfoldable pub bad_image_at : ℕ → List DockerImage → Option ℕ
bad_image_at n [] = none
bad_image_at n (i ∷ is) =
    let rest = bad_image_at (suc n) is in if is_valid (validate i) then rest else some n

-- `append(s.ChainConfig.ExposeAdditionalPorts, s.ExposeAdditionalPorts...)`: the second is the same
-- field, promoted.
unfoldable pub append_ports : ChainSpec → ChainSpec
append_ports s =
    let c = s.chain_config in
    record s {
      chain_config = record c {
        expose_additional_ports = c.expose_additional_ports ++ c.expose_additional_ports;
      };
    }

-- `s.Name` and `s.ChainConfig.Name` stand in for one another.
unfoldable pub share_names : ChainSpec → ChainSpec
share_names s =
    if s.name == "" && not (s.chain_config.name == "")
    then record s { name = s.chain_config.name }
    else if not (s.name == "") && s.chain_config.name == ""
    then record s { chain_config = record s.chain_config { name = s.name } }
    else s

-- `ChainName` stands in for a missing `ChainConfig.Name`.
unfoldable pub fill_name : ChainSpec → ChainSpec
fill_name s =
    if s.chain_config.name == "" && not (s.chain_name == "")
    then record s { chain_config = record s.chain_config { name = s.chain_name } }
    else s

-- The branch for a spec with no name.
unfoldable pub config_unnamed : World → SpecResult × World
config_unnamed w =
    let w' : World = record w { spec = fill_name w.spec } in
    if is_chain_configured w'.spec.chain_config
    then apply_config_overrides true w'.spec.chain_config w'
    else (err name_required, w')

abbrev pub with_coin_type : Option String → ChainConfig → World → SpecResult × World
with_coin_type none cfg w = (err bad_coin_type, w)
with_coin_type (some t) cfg w = apply_config_overrides false (record cfg { coin_type = t }) w

-- The branch for a spec with a name: the base configuration, if there is one.
unfoldable pub config_named : Option (Map String ChainConfig) → World → SpecResult × World
config_named none w = (err builtin_failed, w)
config_named (some builtin) w =
    let merged = λ (base : ChainConfig). merge_chain_spec_config base w.spec.chain_config in
    elim (lookup w.spec.name builtin) [
      | some base ↦ with_coin_type (verify_coin_type (merged base)) (merged base) w
      | none ↦
          if is_chain_configured w.spec.chain_config
          then with_coin_type (verify_coin_type (merged zero_config)) (merged zero_config) w
          else (err no_configuration, w)
    ]

-- `Config` once the version and the images have passed.
unfoldable pub config_checked : Option (Map String ChainConfig) → World → SpecResult × World
config_checked builtin w = if w.spec.name == "" then config_unnamed w else config_named builtin w

abbrev pub prepare : World → World
prepare w = record w { spec = share_names (append_ports w.spec) }

-- `(*ChainSpec).Config`
unfoldable pub config : Option (Map String ChainConfig) → World → SpecResult × World
config builtin w =
    let images = w.spec.chain_config.images in
    if w.spec.version == "" && first_version images == ""
    then (err version_empty, w)
    else (elim (bad_image_at 0 images) [
      | some i ↦ (err (bad_image i), w)
      | none ↦ config_checked builtin (prepare w)
    ])
