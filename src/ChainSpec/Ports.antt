-- ===== src/ChainSpec/Ports.antt =====
-- What `Config` of chainspec.go does to the additional ports of the spec that it is called on.
use interchaintest.Base.{
  String, ◌≡◌, refl, ◌∙◌, ◌≢◌, ◌⊎◌, inl, inr, Bool, true, false, ◌&&◌, Option, none, some, List,
  ◌++◌, arith, eq_iff, Bool-cases, Option-cases, ◌==◌, Map, lookup, nat_eq, string_eq,
}
use interchaintest.Ibc.Config.{ChainConfig, is_chain_configured}
use interchaintest.ChainSpec.{
  World, suffix, suffix_if_needed, apply_config_overrides, first_version, bad_image_at,
  append_ports, share_names, config_unnamed, with_coin_type, config_named, config, config_checked,
  prepare, fill_name,
}

abbrev pub ports : World → List String
ports w = w.spec.chain_config.expose_additional_ports

suffix-ports : (base : ChainConfig) (w : World) → ports (suffix_if_needed base w).1 ≡ ports w
unfolding suffix_if_needed suffix
suffix-ports base w = ground arith

apply-ports :
    (own : Bool) (base : ChainConfig) (w : World)
    → ports (apply_config_overrides own base w).1 ≡ ports w
unfolding apply_config_overrides
apply-ports true base w = suffix-ports base w
apply-ports false base w = suffix-ports base w

fill_name-ports : (w : World) → ports (record w { spec = fill_name w.spec }) ≡ ports w
unfolding fill_name
fill_name-ports w = ground arith

config_unnamed-ports : (w : World) → ports (config_unnamed w).1 ≡ ports w
unfolding config_unnamed
config_unnamed-ports w = elim (Bool-cases (is_chain_configured (fill_name w.spec).chain_config)) [
  | inl e ↦ rw (e, config_unnamed) (apply-ports true _ _ ∙ fill_name-ports w)
  | inr e ↦ rw (e, config_unnamed) (fill_name-ports w)
]

with_coin_type-ports :
    (t : Option String) (base : ChainConfig) (w : World)
    → ports (with_coin_type t base w).1 ≡ ports w
with_coin_type-ports none base w = refl
with_coin_type-ports (some t) base w = apply-ports false _ w

config_named-ports :
    (builtin : Option (Map String ChainConfig)) (w : World)
    → ports (config_named builtin w).1 ≡ ports w
unfolding config_named
config_named-ports none w = refl
config_named-ports (some builtin) w = elim (Option-cases (lookup w.spec.name builtin)) [
  | inr (base, e) ↦ rw (e, config_named) (with_coin_type-ports _ _ w)
  | inl e ↦ elim (Bool-cases (is_chain_configured w.spec.chain_config)) [
    | inl c ↦ rw (e, c, config_named) (with_coin_type-ports _ _ w)
    | inr c ↦ rw (e, c, config_named)
  ]
]

config_checked-ports :
    (builtin : Option (Map String ChainConfig)) (w : World)
    → ports (config_checked builtin w).1 ≡ ports w
unfolding config_checked
config_checked-ports builtin w = elim (Bool-cases (w.spec.name == "")) [
  | inl e ↦ rw (e, config_checked) (config_unnamed-ports w)
  | inr e ↦ rw (e, config_checked) (config_named-ports builtin w)
]

prepare-ports : (w : World) → ports (prepare w) ≡ ports w ++ ports w
unfolding append_ports share_names
prepare-ports w = ground arith

-- The checks that `Config` makes first.
abbrev pub Passes : World → Type 0
Passes w =
    ((w.spec.version ≢ "") ⊎ (first_version w.spec.chain_config.images ≢ ""))
    × (bad_image_at 0 w.spec.chain_config.images ≡ none)

Passes-version :
    (w : World)
    → Passes w
    → (w.spec.version == "" && first_version w.spec.chain_config.images == "") ≡ false
Passes-version w p =
    ground (arith, eq_iff w.spec.version "", eq_iff (first_version w.spec.chain_config.images) "")

version_passes :
    (w : World)
    → (w.spec.version == "" && first_version w.spec.chain_config.images == "") ≡ false
    → (w.spec.version ≢ "") ⊎ (first_version w.spec.chain_config.images ≢ "")
version_passes w e =
    ground (arith, eq_iff w.spec.version "", eq_iff (first_version w.spec.chain_config.images) "")

-- Every call of `Config` that passes the checks of the version and of the images leaves the spec with
-- its own additional ports twice over, whether the call succeeds or not; any other call leaves the
-- ports alone.
pub config-doubles_ports :
    (builtin : Option (Map String ChainConfig)) (w : World)
    → (Passes w → ports (config builtin w).1 ≡ ports w ++ ports w)
      × (¬ Passes w → ports (config builtin w).1 ≡ ports w)
unfolding config
config-doubles_ports builtin w = (
  λ p.
      rw (Passes-version w p, p.1, config)
        (config_checked-ports builtin (prepare w) ∙ prepare-ports w),
  λ n. elim (Bool-cases (w.spec.version == "" && first_version w.spec.chain_config.images == "")) [
    | inl e ↦ rw (e, config)
    | inr e ↦ elim (Option-cases (bad_image_at 0 w.spec.chain_config.images)) [
      | inr (i, b) ↦ rw (e, b, config)
      | inl b ↦ absurd (n (version_passes w e, b))
    ]
  ],
)
