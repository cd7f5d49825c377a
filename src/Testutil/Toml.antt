-- ===== src/Testutil/Toml.antt =====
-- testutil/toml.go: changes of a decoded configuration file, and of the file. What the TOML package
-- decodes and encodes is a parameter.
use interchaintest.Base.{String, Option, none, some, if◌then◌else◌, ◌==◌, cat, string_eq}
use interchaintest.Base.Actions.{Ended, Action, done, fails, panics, blocks, ◌>>=◌, ◌>>◌, wrapping}
use interchaintest.Dockerutil.{read_file, write_file, Host, Docker, ask, tell}
pub mod Laws
pub mod Plain
pub mod Frame

-- A value: a map is a `Toml`, as in modifications, or a plain map, as decoding and changes give it; all
-- else is known by its text in TOML.
mutual
  pub data Value : Type 0 where
    scalar : String → Value
    toml plain : Table → Value

  pub data Table : Type 0 where
    empty : Table
    entry : String → Value → Table → Table

unfoldable pub find : String → Table → Option Value
find k empty = none
find k (entry j v t) = if j == k then some v else find k t

-- `c[key] = value`
unfoldable pub put : String → Value → Table → Table
put k v empty = entry k v empty
put k v (entry j w t) = let rest = put k v t in if j == k then entry j v t else entry j w rest

-- The section that is changed: one that is no plain map gives way to an empty map. The variable that
-- holds it is a `map[string]any`, so that it is stored as a plain map, also where it was made as a
-- `Toml`.
abbrev pub section : Option Value → Table
section (some (plain t)) = t
section (some (toml t)) = empty
section (some (scalar s)) = empty
section none = empty

abbrev pub and_then : Ended Table → (Table → Ended Table) → Ended Table
and_then (done t) f = f t
and_then (fails e) f = fails e
and_then panics f = panics
and_then blocks f = blocks

-- `RecursiveModifyToml`: a map among the modifications that is no `Toml` panics.
unfoldable pub recursive_modify_toml : Table → Table → Ended Table
unfolding put find
recursive_modify_toml c empty = done c
recursive_modify_toml c (entry k (scalar v) rest) = recursive_modify_toml (put k (scalar v) c) rest
recursive_modify_toml c (entry k (toml t) rest) =
    and_then (recursive_modify_toml (section (find k c)) t)
      (λ s. recursive_modify_toml (put k (plain s) c) rest)
recursive_modify_toml c (entry k (plain t) rest) = panics

pub record TomlPackage : Type 0 where
  pub unmarshal : String → Ended Table
  pub encode : Table → Ended String

module _ (docker : Docker) (codec : TomlPackage) where
  -- `ModifyTomlConfigFile`
  unfoldable pub modify_toml_config_file : String → String → Table → Action Host (Unit {0})
  unfolding ask recursive_modify_toml
  modify_toml_config_file volume path modifications = do
    config ←
        wrapping (cat (cat "failed to retrieve " (cat path ": ")))
          (ask docker (read_file volume path) docker.text)
    c ←
        wrapping (cat (cat "failed to unmarshal " (cat path ": ")))
          (λ h. (codec.unmarshal config, h))
    modified ←
        wrapping (cat (cat "failed to modify " (cat path ": ")))
          (λ h. (recursive_modify_toml c modifications, h))
    content ←
        wrapping (cat (cat "failed to encode " (cat path ": "))) (λ h. (codec.encode modified, h))
    wrapping (cat (cat "overwriting " (cat path ": ")))
        (tell docker (write_file volume path content))
