-- ===== src/ChainSpec/Naming.antt =====
-- What a successful `Config` of chainspec.go promises about the name, the ID, the coin type and the
-- version, and what every call does to the spec's ports.
use interchaintest.Base.{
  String, ◌≡◌, refl, ◌∙◌, ◌≢◌, ◌⊎◌, inl, inr, Bool, true, false, ◌&&◌, Option, none, some, List, [],
  ◌∷◌, arith, eq_iff, Bool-cases, Option-cases, ◌==◌, Map, lookup, subst, nat_eq, string_eq,
}
use interchaintest.Ibc.Image.{DockerImage}
use interchaintest.Ibc.Config.{ChainConfig, is_chain_configured}
use interchaintest.ChainSpec.Versions.{
  Status, fine, error, index_panic, set_versions, cosmos_versions,
}
use interchaintest.ChainSpec.{
  ChainSpec, World, override_fields, suffix_if_needed, ok, apply_config_overrides, first_version,
  bad_image_at, append_ports, share_names, config_unnamed, with_coin_type, config_named, config,
  config_checked, prepare, fill_name, finish,
}

-- What no step before `applyConfigOverrides` changes.
abbrev SameSpec : World → World → Type 0
SameSpec v w = (v.spec.chain_name ≡ w.spec.chain_name) × (v.spec.version ≡ w.spec.version)

-- How a configuration came about: the overrides were applied to some base.
record Applied (w : World) (cfg : ChainConfig) : Type 0 where
  own : Bool
  base : ChainConfig
  at : World
  same : SameSpec at w
  applied : (apply_config_overrides own base at).0 ≡ ok cfg

fill_name-SameSpec : (w : World) → SameSpec (record w { spec = fill_name w.spec }) w
unfolding fill_name
fill_name-SameSpec w = ground arith

share_names-SameSpec :
    (w : World) → SameSpec (record w { spec = share_names (append_ports w.spec) }) w
unfolding share_names append_ports
share_names-SameSpec w = ground arith

config_unnamed-Applied :
    (w : World) (cfg : ChainConfig) → (config_unnamed w).0 ≡ ok cfg → Applied w cfg
unfolding config_unnamed
config_unnamed-Applied w cfg h =
    elim (Bool-cases (is_chain_configured (fill_name w.spec).chain_config)) [
      | inl e ↦ record {
        own = true;
        base = (fill_name w.spec).chain_config;
        at = _;
        same = fill_name-SameSpec w;
        applied = rw (e, config_unnamed) at h;
      }
      | inr e ↦ cc (rw (e, config_unnamed) at h)
    ]

with_coin_type-Applied :
    (t : Option String) (base : ChainConfig) (w : World) (cfg : ChainConfig)
    → (with_coin_type t base w).0 ≡ ok cfg
    → Applied w cfg
with_coin_type-Applied none base w cfg h = cc
with_coin_type-Applied (some t) base w cfg h = record {
  own = false;
  base = record base { coin_type = t };
  at = w;
  same = (refl, refl);
  applied = h;
}

config_named-Applied :
    (builtin : Option (Map String ChainConfig)) (w : World) (cfg : ChainConfig)
    → (config_named builtin w).0 ≡ ok cfg
    → Applied w cfg
unfolding config_named
config_named-Applied none w cfg h = cc
config_named-Applied (some builtin) w cfg h = elim (Option-cases (lookup w.spec.name builtin)) [
  | inr (base, e) ↦ with_coin_type-Applied _ _ w cfg (rw (e, config_named) at h)
  | inl e ↦ elim (Bool-cases (is_chain_configured w.spec.chain_config)) [
    | inl c ↦ with_coin_type-Applied _ _ w cfg (rw (e, c, config_named) at h)
    | inr c ↦ cc (rw (e, c, config_named) at h)
  ]
]

finish-eq-ok : (c : ChainConfig) (st : Status) {cfg : ChainConfig} → finish c st ≡ ok cfg → c ≡ cfg
finish-eq-ok c fine h = cc
finish-eq-ok c (error e) h = cc
finish-eq-ok c index_panic h = cc

-- The versions of the images of a chain of the two types that take the spec's version.
abbrev pub IsPinned : ChainConfig → String → Type 0
IsPinned cfg version =
    (cfg.type ≡ "cosmos") ⊎ (cfg.type ≡ "namada")
    → version ≢ ""
    → (cfg.images ≡ []) ⊎ (first_version cfg.images ≡ version)

cosmos_versions_pinned :
    (version : String) (images : List DockerImage)
    → version ≢ ""
    → ((cosmos_versions version images).images ≡ [])
      ⊎ (first_version (cosmos_versions version images).images ≡ version)
unfolding cosmos_versions
cosmos_versions_pinned version [] h = inl refl
cosmos_versions_pinned version (x ∷ xs) h = inr (ground (arith, eq_iff version ""))

set_versions_cosmos :
    (type name version : String) (own images : List DockerImage)
    → (type ≡ "cosmos") ⊎ (type ≡ "namada")
    → set_versions type name version own images ≡ cosmos_versions version images
unfolding set_versions
set_versions_cosmos type name version own images (inl e) = rw e
set_versions_cosmos type name version own images (inr e) = rw e

override-name :
    (s : ChainSpec) (suf : String) (base : ChainConfig)
    → s.chain_name ≢ ""
    → (override_fields s suf base).name ≡ s.chain_name
unfolding override_fields
override-name s suf base ne = ground (arith, eq_iff s.chain_name "")

-- What the overrides leave in a configuration that they accept.
apply_lem :
    (own : Bool) (base : ChainConfig) (w : World) (cfg : ChainConfig)
    → (apply_config_overrides own base w).0 ≡ ok cfg
    → (w.spec.chain_name ≢ "" → cfg.name ≡ w.spec.chain_name) × IsPinned cfg w.spec.version
unfolding apply_config_overrides
apply_lem own base w cfg h =
    let c = override_fields w.spec (suffix_if_needed base w).0 base in
    let v = set_versions c.type w.spec.name w.spec.version w.spec.chain_config.images c.images in
    let e : record c { images = v.images } ≡ cfg = finish-eq-ok _ v.status h in
    subst (λ k. (w.spec.chain_name ≢ "" → k.name ≡ w.spec.chain_name) × IsPinned k w.spec.version) e
      (
        override-name w.spec _ base,
        λ ty ne.
            rw (set_versions_cosmos _ _ _ _ _ ty)
              (cosmos_versions_pinned w.spec.version c.images ne),
      )

Applied-prepare : (w : World) (cfg : ChainConfig) → Applied (prepare w) cfg → Applied w cfg
Applied-prepare w cfg a =
    let same = share_names-SameSpec w in
    record {
      own = a.own;
      base = a.base;
      at = a.at;
      same = (a.same.0 ∙ same.0, a.same.1 ∙ same.1);
      applied = a.applied;
    }

config_checked-Applied :
    (builtin : Option (Map String ChainConfig)) (w : World) (cfg : ChainConfig)
    → (config_checked builtin w).0 ≡ ok cfg
    → Applied w cfg
unfolding config_checked
config_checked-Applied builtin w cfg h = elim (Bool-cases (w.spec.name == "")) [
  | inl e ↦ config_unnamed-Applied w cfg (rw (e, config_checked) at h)
  | inr e ↦ config_named-Applied builtin w cfg (rw (e, config_checked) at h)
]

config-Applied :
    (builtin : Option (Map String ChainConfig)) (w : World) (cfg : ChainConfig)
    → (config builtin w).0 ≡ ok cfg
    → Applied w cfg
unfolding config
config-Applied builtin w cfg h =
    elim (Bool-cases (w.spec.version == "" && first_version w.spec.chain_config.images == "")) [
      | inl e ↦ cc (rw (e, config) at h)
      | inr e ↦ elim (Option-cases (bad_image_at 0 w.spec.chain_config.images)) [
        | inr (i, b) ↦ cc (rw (e, b, config) at h)
        | inl b ↦
            Applied-prepare w cfg
              (config_checked-Applied builtin (prepare w) cfg (rw (e, b, config) at h))
      ]
    ]

-- A configuration that `Config` returns has the spec's ChainName, if that is set; and for the chain
-- types cosmos and namada the version of its first image is the spec's version, if that is set.
pub config-name :
    (builtin : Option (Map String ChainConfig)) (w : World) (cfg : ChainConfig)
    → (config builtin w).0 ≡ ok cfg
    → (w.spec.chain_name ≢ "" → cfg.name ≡ w.spec.chain_name) × IsPinned cfg w.spec.version
config-name builtin w cfg h =
    let a = config-Applied builtin w cfg h in
    let r = apply_lem a.own a.base a.at cfg a.applied in (rw a.same.0 at r.0, rw a.same.1 at r.1)
