-- ===== src/ChainSpec/Versions.antt =====
-- The end of `applyConfigOverrides` of chainspec.go: the versions of the images, by chain type. The
-- images are a slice that the function writes to, so they come back beside an error too. An index out
-- of range panics.
use interchaintest.Base.{
  ℕ, zero, suc, String, ◌⊎◌, inl, inr, not, ◌||◌, List, [], ◌∷◌, if◌then◌else◌, ◌==◌, split,
  contains, nat_eq, string_eq,
}
use interchaintest.Ibc.Image.{DockerImage}

pub data SpecError : Type 0 where
  version_empty name_required builtin_failed no_configuration bad_coin_type : SpecError
  bad_image : ℕ → SpecError
  penumbra_version composable_version parachain_format polkadot_images : SpecError
  relay_chain_unsupported unexpected_parachain : String → SpecError

pub data Status : Type 0 where
  fine index_panic : Status
  error : SpecError → Status

pub record Versioned : Type 0 where
  pub images : List DockerImage
  pub status : Status

-- `images[i].Version = v`
unfoldable pub put_version : ℕ → String → List DockerImage → Versioned
put_version i v [] = record { images = []; status = index_panic }
put_version zero v (x ∷ xs) = record { images = record x { version = v } ∷ xs; status = fine }
put_version (suc i) v (x ∷ xs) =
    let r = put_version i v xs in record { images = x ∷ r.images; status = r.status }

-- `if images[i].Version == "" { images[i].Version = v }`
unfoldable pub fill_version : ℕ → String → List DockerImage → Versioned
fill_version i v [] = record { images = []; status = index_panic }
fill_version zero v (x ∷ xs) = record {
  images = (if x.version == "" then record x { version = v } else x) ∷ xs;
  status = fine;
}
fill_version (suc i) v (x ∷ xs) =
    let r = fill_version i v xs in record { images = x ∷ r.images; status = r.status }

-- The next statement, if nothing stopped the function.
abbrev pub and_then : Versioned → (List DockerImage → Versioned) → Versioned
and_then r f = elim r.status [
  | fine ↦ f r.images
  | error e ↦ record { images = r.images; status = error e }
  | index_panic ↦ record { images = r.images; status = index_panic }
]

abbrev pub stop : Status → List DockerImage → Versioned
stop s images = record { images = images; status = s }

unfoldable pub cosmos_versions : String → List DockerImage → Versioned
unfolding put_version
cosmos_versions version [] = stop fine []
cosmos_versions version (x ∷ xs) =
    if version == "" then stop fine (x ∷ xs) else put_version 0 version (x ∷ xs)

unfoldable pub penumbra_versions : List String → List DockerImage → Versioned
unfolding fill_version
penumbra_versions (p ∷ t ∷ []) images = and_then (fill_version 0 t images) (fill_version 1 p)
penumbra_versions _ images = stop (error penumbra_version) images

-- The relay chain's version out of `polkadot:version` or `version`.
unfoldable pub relay_version : List String → Status ⊎ String
relay_version [] = inl index_panic
relay_version (v ∷ []) = inr v
relay_version (image ∷ v ∷ rest) =
    if image == "seunlanlege/centauri-polkadot" || image == "polkadot"
    then inr v
    else inl (error (relay_chain_unsupported image))

unfoldable pub parachain_versions : List String → List DockerImage → Versioned
unfolding put_version
parachain_versions (para ∷ v ∷ []) [] = stop index_panic []
parachain_versions (para ∷ v ∷ []) (x ∷ []) = stop index_panic (x ∷ [])
parachain_versions (para ∷ v ∷ []) (x ∷ y ∷ rest) =
    if contains y.repository para
    then put_version 1 v (x ∷ y ∷ rest)
    else stop (error (unexpected_parachain para)) (x ∷ y ∷ rest)
parachain_versions _ images = stop (error parachain_format) images

-- The switch on the spec's name, after the relay chain's version is set.
unfoldable pub composable_versions : String → List String → List DockerImage → Versioned
unfolding parachain_versions
composable_versions name (relay ∷ para ∷ []) images =
    if contains name "composable"
    then parachain_versions (split b':' para) images
    else stop (error (unexpected_parachain name)) images
composable_versions name _ images =
    if contains name "composable"
    then stop (error composable_version) images
    else stop (error (unexpected_parachain name)) images

unfoldable pub polkadot_versions : String → List String → List DockerImage → Versioned
unfolding relay_version composable_versions put_version
polkadot_versions name [] images = stop index_panic images
polkadot_versions name (relay ∷ rest) images = elim (relay_version (split b':' relay)) [
  | inl r ↦ stop r images
  | inr v ↦ and_then (put_version 0 v images) (composable_versions name (relay ∷ rest))
]

abbrev second_version : List DockerImage → String
second_version (x ∷ y ∷ rest) = y.version
second_version _ = ""

-- The switch on the chain type; `own` are the images of the spec's own configuration.
unfoldable pub set_versions :
    String → String → String → List DockerImage → List DockerImage → Versioned
unfolding cosmos_versions penumbra_versions polkadot_versions
set_versions type name version own images =
    if type == "cosmos" || type == "namada"
    then cosmos_versions version images
    else if type == "penumbra"
    then penumbra_versions (split b',' version) images
    else if type == "polkadot"
    then (if not (version == "")
        then polkadot_versions name (split b',' version) images
        else if second_version own == ""
        then stop (error polkadot_images) images
        else stop fine images)
    else stop fine images
