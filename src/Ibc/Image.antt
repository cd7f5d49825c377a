-- ===== src/Ibc/Image.antt =====
-- `DockerImage` of ibc/types.go.
use interchaintest.Base.{
  String, ◌≡◌, ◌≢◌, ◌↔◌, Bool, true, false, List, [], ◌∷◌, ◌++◌, arith, eq_iff, if◌then◌else◌, ◌==◌,
  cat, join, string_eq,
}

pub record DockerImage : Type 0 where
  pub repository : String
  pub version : String
  pub uid_gid : String

-- `NewDockerImage`
pub new_docker_image : String → String → String → DockerImage
new_docker_image repository version uid_gid = record {
  repository = repository;
  version = version;
  uid_gid = uid_gid;
}

-- The result of `Validate`: nil, or the error with the names that it joins.
pub data Validation : Type 0 where
  valid : Validation
  missing_fields : String → Validation

-- The loop-free part of `Validate` that collects the names.
missing : DockerImage → List String
missing i =
    (if i.repository == "" then "Repository" ∷ [] else [])
    ++ (if i.uid_gid == "" then "UidGid" ∷ [] else [])

abbrev report : List String → Validation
report [] = valid
report (s ∷ rest) = missing_fields (join ", " (s ∷ rest))

-- `(DockerImage).Validate`
unfoldable pub validate : DockerImage → Validation
unfolding missing
validate i = report (missing i)

-- `err == nil`
abbrev pub is_valid : Validation → Bool
is_valid valid = true
is_valid (missing_fields s) = false

-- `(DockerImage).IsFullyConfigured`
unfoldable pub is_fully_configured : DockerImage → Bool
unfolding validate
is_fully_configured i = is_valid (validate i)

-- `(DockerImage).Ref`
unfoldable pub ref : DockerImage → String
ref i = if i.version == "" then cat i.repository ":latest" else cat (cat i.repository ":") i.version

-- An image is fully configured exactly when its repository and its user are set; the version and
-- the rest of the image do not matter.
pub is_fully_configured_iff :
    (i : DockerImage) → (is_fully_configured i ≡ true) ↔ ((i.repository ≢ "") × (i.uid_gid ≢ ""))
unfolding is_fully_configured
is_fully_configured_iff i = ground (arith, eq_iff i.repository "", eq_iff i.uid_gid "")
