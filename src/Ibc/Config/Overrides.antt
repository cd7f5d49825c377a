-- ===== src/Ibc/Config/Overrides.antt =====
-- What a configuration is once several overrides are merged into it, one after another.
use mathlib.Core.List.{append-nil, append_assoc}
use interchaintest.Base.{
  String, ◌≡◌, refl, sym, ◌∙◌, Bool, true, false, not, Option, none, some, List, [], ◌∷◌, ◌++◌,
  arith, if◌then◌else◌, ◌==◌, string_eq,
}
use interchaintest.Ibc.Config.{
  ChainConfig, merge_chain_spec_config, or_text, or_list, or_value, uses_comet_mock, is_zero_ics,
  float_pos, is_empty,
}

-- The overrides are merged in turn.
unfoldable pub merge_all : ChainConfig → List ChainConfig → ChainConfig
merge_all c [] = c
merge_all c (o ∷ os) = merge_all (merge_chain_spec_config c o) os

-- The last override that sets a field.
unfoldable pub last_setting : (ChainConfig → Bool) → List ChainConfig → Option ChainConfig
last_setting sets [] = none
last_setting sets (o ∷ os) = elim (last_setting sets os) [
  | none ↦ if sets o then some o else none
  | some l ↦ some l
]

-- A field of the last override that sets it, or else of the configuration.
abbrev field_of : {A : Type 0} → (ChainConfig → A) → ChainConfig → Option ChainConfig → A
field_of field c none = field c
field_of field c (some o) = field o

unfoldable pub chosen :
    {A : Type 0} → (ChainConfig → Bool) → (ChainConfig → A) → ChainConfig → List ChainConfig → A
unfolding last_setting
chosen sets field c os = field_of field c (last_setting sets os)

abbrev pub is_some : {A : Type 0} → Option A → Bool
is_some none = false
is_some (some a) = true

abbrev pub flat_map : {A : Type 0} → (ChainConfig → List A) → List ChainConfig → List A
flat_map field [] = []
flat_map field (o ∷ os) = field o ++ flat_map field os

-- Each field is the one of the last override that sets it, and three lists are joined in order.
unfoldable pub overridden : ChainConfig → List ChainConfig → ChainConfig
unfolding chosen
overridden c os = record c {
  type = chosen (λ o. not (o.type == "")) (λ o. o.type) c os;
  chain_id = chosen (λ o. not (o.chain_id == "")) (λ o. o.chain_id) c os;
  images = chosen (λ o. not (is_empty o.images)) (λ o. o.images) c os;
  comet_mock = chosen uses_comet_mock (λ o. o.comet_mock) c os;
  bin = chosen (λ o. not (o.bin == "")) (λ o. o.bin) c os;
  bech32_prefix = chosen (λ o. not (o.bech32_prefix == "")) (λ o. o.bech32_prefix) c os;
  denom = chosen (λ o. not (o.denom == "")) (λ o. o.denom) c os;
  coin_type = chosen (λ o. not (o.coin_type == "")) (λ o. o.coin_type) c os;
  gas_prices = chosen (λ o. not (o.gas_prices == "")) (λ o. o.gas_prices) c os;
  gas_adjustment = chosen (λ o. float_pos o.gas_adjustment) (λ o. o.gas_adjustment) c os;
  gas = chosen (λ o. not (o.gas == "")) (λ o. o.gas) c os;
  trusting_period = chosen (λ o. not (o.trusting_period == "")) (λ o. o.trusting_period) c os;
  modify_genesis = chosen (λ o. is_some o.modify_genesis) (λ o. o.modify_genesis) c os;
  skip_gen_tx = chosen (λ o. o.skip_gen_tx) (λ o. o.skip_gen_tx) c os;
  pre_genesis = chosen (λ o. is_some o.pre_genesis) (λ o. o.pre_genesis) c os;
  config_file_overrides =
      chosen (λ o. is_some o.config_file_overrides) (λ o. o.config_file_overrides) c os;
  encoding_config = chosen (λ o. is_some o.encoding_config) (λ o. o.encoding_config) c os;
  sidecar_configs = chosen (λ o. not (is_empty o.sidecar_configs)) (λ o. o.sidecar_configs) c os;
  coin_decimals = chosen (λ o. is_some o.coin_decimals) (λ o. o.coin_decimals) c os;
  additional_start_args = c.additional_start_args ++ flat_map (λ o. o.additional_start_args) os;
  env = c.env ++ flat_map (λ o. o.env) os;
  expose_additional_ports =
      c.expose_additional_ports ++ flat_map (λ o. o.expose_additional_ports) os;
  interchain_security_config =
      chosen (λ o. not (is_zero_ics o.interchain_security_config))
        (λ o. o.interchain_security_config) c os;
  genesis = chosen (λ o. is_some o.genesis) (λ o. o.genesis) c os;
}

chosen_later :
    {A : Type 0} (sets : ChainConfig → Bool) (field : ChainConfig → A) (c m o : ChainConfig)
    (os : List ChainConfig)
    → field m ≡ (if sets o then field o else field c)
    → chosen sets field m os ≡ chosen sets field c (o ∷ os)
unfolding chosen last_setting
chosen_later {A} sets field c m o os e = later (last_setting sets os)
  where
    now :
        (b : Bool)
        → (if b then field o else field c) ≡ field_of field c (if b then some o else none)
    now true = refl
    now false = refl

    later :
        (l : Option ChainConfig)
        → field_of field m l
          ≡ field_of field c (elim l as (λ _. Option ChainConfig) [
            | none ↦ if sets o then some o else none
            | some x ↦ some x
          ])
    later none = e ∙ now (sets o)
    later (some x) = refl

or_text-if : (new old : String) → or_text new old ≡ (if not (new == "") then new else old)
or_text-if new old = ground arith

or_list-if {ℓ} :
    {A : Type ℓ} (new old : List A) → or_list new old ≡ (if not (is_empty new) then new else old)
or_list-if [] old = refl
or_list-if (x ∷ xs) old = refl

or_value-if :
    {A : Type 0} (new old : Option A) → or_value new old ≡ (if is_some new then new else old)
or_value-if none old = refl
or_value-if (some x) old = refl

skip-if : (new old : Bool) → (if new then true else old) ≡ (if new then new else old)
skip-if true old = refl
skip-if false old = refl

overridden_nil : (c : ChainConfig) → c ≡ overridden c []
unfolding overridden
overridden_nil c = λ i. record c {
  type = c.type;
  chain_id = c.chain_id;
  images = c.images;
  comet_mock = c.comet_mock;
  bin = c.bin;
  bech32_prefix = c.bech32_prefix;
  denom = c.denom;
  coin_type = c.coin_type;
  gas_prices = c.gas_prices;
  gas_adjustment = c.gas_adjustment;
  gas = c.gas;
  trusting_period = c.trusting_period;
  modify_genesis = c.modify_genesis;
  skip_gen_tx = c.skip_gen_tx;
  pre_genesis = c.pre_genesis;
  config_file_overrides = c.config_file_overrides;
  encoding_config = c.encoding_config;
  sidecar_configs = c.sidecar_configs;
  coin_decimals = c.coin_decimals;
  additional_start_args = sym (append-nil c.additional_start_args) i;
  env = sym (append-nil c.env) i;
  expose_additional_ports = sym (append-nil c.expose_additional_ports) i;
  interchain_security_config = c.interchain_security_config;
  genesis = c.genesis;
}

overridden_cons :
    (c o : ChainConfig) (os : List ChainConfig)
    → overridden (merge_chain_spec_config c o) os ≡ overridden c (o ∷ os)
unfolding overridden merge_chain_spec_config
overridden_cons c o os = λ i. record c {
  type =
      chosen_later (λ x. not (x.type == "")) (λ x. x.type) c (merge_chain_spec_config c o) o os
        (or_text-if o.type c.type) i;
  chain_id =
      chosen_later (λ x. not (x.chain_id == "")) (λ x. x.chain_id) c (merge_chain_spec_config c o) o
        os (or_text-if o.chain_id c.chain_id) i;
  images =
      chosen_later (λ x. not (is_empty x.images)) (λ x. x.images) c (merge_chain_spec_config c o) o
        os (or_list-if o.images c.images) i;
  comet_mock =
      chosen_later uses_comet_mock (λ x. x.comet_mock) c (merge_chain_spec_config c o) o os refl i;
  bin =
      chosen_later (λ x. not (x.bin == "")) (λ x. x.bin) c (merge_chain_spec_config c o) o os
        (or_text-if o.bin c.bin) i;
  bech32_prefix =
      chosen_later (λ x. not (x.bech32_prefix == "")) (λ x. x.bech32_prefix) c
        (merge_chain_spec_config c o) o os (or_text-if o.bech32_prefix c.bech32_prefix) i;
  denom =
      chosen_later (λ x. not (x.denom == "")) (λ x. x.denom) c (merge_chain_spec_config c o) o os
        (or_text-if o.denom c.denom) i;
  coin_type =
      chosen_later (λ x. not (x.coin_type == "")) (λ x. x.coin_type) c (merge_chain_spec_config c o)
        o os (or_text-if o.coin_type c.coin_type) i;
  gas_prices =
      chosen_later (λ x. not (x.gas_prices == "")) (λ x. x.gas_prices) c
        (merge_chain_spec_config c o) o os (or_text-if o.gas_prices c.gas_prices) i;
  gas_adjustment =
      chosen_later (λ x. float_pos x.gas_adjustment) (λ x. x.gas_adjustment) c
        (merge_chain_spec_config c o) o os refl i;
  gas =
      chosen_later (λ x. not (x.gas == "")) (λ x. x.gas) c (merge_chain_spec_config c o) o os
        (or_text-if o.gas c.gas) i;
  trusting_period =
      chosen_later (λ x. not (x.trusting_period == "")) (λ x. x.trusting_period) c
        (merge_chain_spec_config c o) o os (or_text-if o.trusting_period c.trusting_period) i;
  modify_genesis =
      chosen_later (λ x. is_some x.modify_genesis) (λ x. x.modify_genesis) c
        (merge_chain_spec_config c o) o os (or_value-if o.modify_genesis c.modify_genesis) i;
  skip_gen_tx =
      chosen_later (λ x. x.skip_gen_tx) (λ x. x.skip_gen_tx) c (merge_chain_spec_config c o) o os
        (skip-if o.skip_gen_tx c.skip_gen_tx) i;
  pre_genesis =
      chosen_later (λ x. is_some x.pre_genesis) (λ x. x.pre_genesis) c (merge_chain_spec_config c o)
        o os (or_value-if o.pre_genesis c.pre_genesis) i;
  config_file_overrides =
      chosen_later (λ x. is_some x.config_file_overrides) (λ x. x.config_file_overrides) c
        (merge_chain_spec_config c o) o os
        (or_value-if o.config_file_overrides c.config_file_overrides) i;
  encoding_config =
      chosen_later (λ x. is_some x.encoding_config) (λ x. x.encoding_config) c
        (merge_chain_spec_config c o) o os (or_value-if o.encoding_config c.encoding_config) i;
  sidecar_configs =
      chosen_later (λ x. not (is_empty x.sidecar_configs)) (λ x. x.sidecar_configs) c
        (merge_chain_spec_config c o) o os (or_list-if o.sidecar_configs c.sidecar_configs) i;
  coin_decimals =
      chosen_later (λ x. is_some x.coin_decimals) (λ x. x.coin_decimals) c
        (merge_chain_spec_config c o) o os (or_value-if o.coin_decimals c.coin_decimals) i;
  additional_start_args =
      append_assoc c.additional_start_args o.additional_start_args
        (flat_map (λ x. x.additional_start_args) os) i;
  env = append_assoc c.env o.env (flat_map (λ x. x.env) os) i;
  expose_additional_ports =
      append_assoc c.expose_additional_ports o.expose_additional_ports
        (flat_map (λ x. x.expose_additional_ports) os) i;
  interchain_security_config =
      chosen_later (λ x. not (is_zero_ics x.interchain_security_config))
        (λ x. x.interchain_security_config) c (merge_chain_spec_config c o) o os refl i;
  genesis =
      chosen_later (λ x. is_some x.genesis) (λ x. x.genesis) c (merge_chain_spec_config c o) o os
        (or_value-if o.genesis c.genesis) i;
}

-- When overrides are merged one after another, each field of the result is the one of the last
-- override that sets it (by a text that is not empty, a slice with elements, a value that is not nil,
-- and so on), or the configuration's where none does, and the start arguments, the environment and the
-- ports are the configuration's followed by those of the overrides in order.
pub merge_all-eq-overridden :
    (c : ChainConfig) (os : List ChainConfig) → merge_all c os ≡ overridden c os
unfolding merge_all
merge_all-eq-overridden c [] = overridden_nil c
merge_all-eq-overridden c (o ∷ os) =
    merge_all-eq-overridden (merge_chain_spec_config c o) os ∙ overridden_cons c o os
