-- ===== src/Relayer/Hermes.antt =====
-- The hermes relayer (relayer/hermes/hermes_relayer.go): paths, which hermes itself does not know,
-- the chains of its one configuration file, and the locks that guard both. The calls of one goroutine
-- are modelled: a lock that it waits for while nobody can release it blocks it for ever.
pub mod Methods
pub mod Keeping
pub mod Locks
pub mod Freeing
pub mod Released
pub mod Stuck
pub mod Renamed
pub mod Linked
pub mod Commander
use Prim.Native.Char.{code}
use Prim.Native.String
use interchaintest.Base.{
  ℕ, ◌+◌, ◌-◌, String, ◌≡◌, refl, Bool, true, false, not, ◌||◌, Option, none, some, List, [], ◌∷◌,
  if◌then◌else◌, ◌==◌, Map, lookup, assign, cat, split, contains, nat_eq, string_eq,
}
use interchaintest.Base.Actions.{
  Ended, Action, done, fails, panics, blocks, continue, ◌>>=◌, ◌>>◌, return, errorf, panic, block,
  modify, gets,
}
use interchaintest.Ibc.Config.{ChainConfig}
use interchaintest.Ibc.Channel.{CreateChannelOptions, CreateClientOptions, order_string}
use interchaintest.Ibc.Transfer.{ChannelOutput}
use interchaintest.Interchain.{Wallet}
use interchaintest.Dockerutil.{Docker}
use interchaintest.Relayer.Types.{RelayerCommander, PathUpdateOptions, DockerRelayer}
use interchaintest.Relayer.Docker.{
  ExecResult, ended, exec, exec_ok, get_channels, write_file_to_home_dir, add_wallet,
}

-- `pathChainConfig`
pub record PathChainConfig : Type 0 where
  pub chain_id : String
  pub client_id : String
  pub connection_id : String
  pub port_id : String

-- `pathConfiguration`
pub record PathConfiguration : Type 0 where
  pub chain_a : PathChainConfig
  pub chain_b : PathChainConfig

-- `ChainConfig` of this package.
pub record ChainEntry : Type 0 where
  pub cfg : ChainConfig
  pub key_name : String
  pub rpc_addr : String
  pub grpc_addr : String

-- `Relayer`: a chain's lock is held or free; `lock` has its readers and its writer.
pub record Hermes : Type 0 where
  pub relayer : DockerRelayer
  pub paths : Map String PathConfiguration
  pub chain_configs : List ChainEntry
  pub chain_locks : Map String Bool
  pub readers : ℕ
  pub writer : Bool

abbrev pub on_docker : {A : Type 0} → Action DockerRelayer A → Action Hermes A
on_docker m h = let (x, r) = m h.relayer in (x, record h { relayer = r })

-- `defer`: what is deferred runs at any end, a panic included.
abbrev pub finally : {A : Type 0} → (Hermes → Hermes) → Ended A × Hermes → Ended A × Hermes
finally f (done a, h) = (done a, f h)
finally f (fails e, h) = (fails e, f h)
finally f (panics, h) = (panics, f h)
finally f (blocks, h) = (blocks, h)

abbrev pub deferring : {A : Type 0} → (Hermes → Hermes) → Action Hermes A → Action Hermes A
deferring f m h = finally f (m h)

-- `r.lock.Lock()`
unfoldable pub lock : Action Hermes (Unit {0})
lock h =
    if h.writer || not (h.readers == 0) then (blocks, h) else (done tt, record h { writer = true })

abbrev pub unlock : Hermes → Hermes
unlock h = record h { writer = false }

-- `r.lock.RLock()`
unfoldable pub r_lock : Action Hermes (Unit {0})
r_lock h = if h.writer then (blocks, h) else (done tt, record h { readers = h.readers + 1 })

abbrev pub r_unlock : Hermes → Hermes
r_unlock h = record h { readers = h.readers - 1 }

-- The lock of a chain: one of an unknown chain is nil.
unfoldable pub lock_chain : String → Action Hermes (Unit {0})
lock_chain id h = elim (lookup id h.chain_locks) [
  | none ↦ (panics, h)
  | some held ↦
      if held
      then (blocks, h)
      else (done tt, record h { chain_locks = assign id true h.chain_locks })
]

abbrev pub unlock_chain : String → Hermes → Hermes
unlock_chain id h = record h { chain_locks = assign id false h.chain_locks }

abbrev pub unlock_chains : PathConfiguration → Hermes → Hermes
unlock_chains p h = unlock_chain p.chain_b.chain_id (unlock_chain p.chain_a.chain_id h)

abbrev pub lock_ends : PathConfiguration → Action Hermes PathConfiguration
lock_ends p = do lock_chain p.chain_a.chain_id; lock_chain p.chain_b.chain_id; return p

abbrev pub found_path : String → Option PathConfiguration → Action Hermes PathConfiguration
found_path name none = errorf (cat "path " (cat name " not found"))
found_path name (some p) = lock_ends p

-- `getAndLockPath`
unfoldable pub get_and_lock_path : String → Action Hermes PathConfiguration
unfolding lock lock_chain
get_and_lock_path name = do lock; deferring unlock (λ h. found_path name (lookup name h.paths) h)

-- A method on a path: the chains of its ends are locked until it is left.
unfoldable pub with_path :
    {A : Type 0} → String → (PathConfiguration → Action Hermes A) → Action Hermes A
unfolding get_and_lock_path
with_path name body = do p ← get_and_lock_path name; deferring (unlock_chains p) (body p)

-- A write through the path's pointer.
abbrev pub write_path : String → PathConfiguration → Action Hermes (Unit {0})
write_path name p = modify (λ h. record h { paths = assign name p h.paths })

-- `extractJSONResult`: the first line that has the word.
unfoldable pub first_result : List String → String
unfolding contains
first_result [] = ""
first_result (l ∷ ls) = if contains l "result" then l else first_result ls

unfoldable pub extract_json_result : String → String
unfolding split first_result
extract_json_result stdout = first_result (split 10 stdout)

-- Up to the last parenthesis that closes on the line.
unfoldable pub to_last_paren : String → Option String
to_last_paren String.[] = none
to_last_paren (String.◌∷◌ c s) =
    let rest = to_last_paren s in
    if code c == 10 then none else elim rest [
      | some g ↦ some (String.◌∷◌ c g)
      | none ↦ if code c == b')' then some "" else none
    ]

-- The first group of `\((.*)\)`.
unfoldable pub in_parens : String → Option String
unfolding to_last_paren
in_parens String.[] = none
in_parens (String.◌∷◌ c s) =
    let rest = in_parens s in
    if code c == b'(' then elim (to_last_paren s) [ some g ↦ some g | none ↦ rest ] else rest

-- `parseRestoreKeyOutput`: indexing the matches panics where there is none.
unfoldable pub parse_restore_key_output : String → Ended String
unfolding in_parens
parse_restore_key_output stdout = elim (in_parens stdout) [ none ↦ panics | some a ↦ done a ]

abbrev pub flag_unless_empty : String → String → List String
flag_unless_empty name value = if value == "" then [] else name ∷ value ∷ []
