-- ===== src/Cosmos/Modules/Grants.antt =====
-- The transactions of chain/cosmos/module_authz.go, module_feegrant.go and module_vesting.go. A time is
-- its text; the JSON that is written is a parameter.
use interchaintest.Base.{
  String, not, Option, none, some, List, [], ◌∷◌, ◌++◌, map, if◌then◌else◌, ◌==◌, ℤ, cat, join,
  contains, nat_eq, string_eq,
}
use interchaintest.Base.Actions.{
  Ended, Action, done, fails, panics, ◌>>=◌, ◌>>◌, return, wrapping, errorf,
}
use interchaintest.Ibc.Config.{ChainConfig}
use interchaintest.Interchain.{Wallet}
use interchaintest.Dockerutil.{Host, Docker}
use interchaintest.Cosmos.{Packages, ChainNode, show_int}
use interchaintest.Cosmos.Commands.{home_dir}
use interchaintest.Cosmos.Exec.{ended, exec, exec_tx, write_node_file}
use interchaintest.Cosmos.Modules.Tx.{only, if_any}
use text.Mathlib.Text.{starts_with}
use interchaintest.Cosmos.Commands.{query_command}
use interchaintest.Base.Actions.{check, blocks}

-- `PrefixMsgTypeIfRequired`
unfoldable pub prefix_msg_type_if_required : String → String
prefix_msg_type_if_required msg_type =
    if starts_with msg_type "/" then msg_type else cat "/" msg_type

-- The type behind the first `--msg-type` is prefixed; nothing behind it panics.
unfoldable pub prefix_after : List String → Ended (Option (List String))
unfolding prefix_msg_type_if_required
prefix_after [] = done none
prefix_after (f ∷ []) = if f == "--msg-type" then panics else done none
prefix_after (f ∷ v ∷ rest) =
    let later = consed f (prefix_after (v ∷ rest)) in
    if f == "--msg-type" then done (some (f ∷ prefix_msg_type_if_required v ∷ rest)) else later
  where
    consed : String → Ended (Option (List String)) → Ended (Option (List String))
    consed f (done (some l)) = done (some (f ∷ l))
    consed f (done none) = done none
    consed f (fails e) = fails e
    consed f panics = panics
    consed f blocks = blocks

abbrev pub allowed : String
allowed = "send|generic|delegate|unbond|redelegate"

module _ (packages : Packages) (docker : Docker) (cfg : ChainConfig) (tn : ChainNode) where
  -- `TxHashToResponse`, whose error is only logged: the response is known by the output it is read from.
  unfoldable pub tx_hash_to_response : String → Action Host String
  unfolding exec query_command
  tx_hash_to_response tx_hash = do
    res ← exec packages docker cfg tn (query_command packages cfg tn ("tx" ∷ tx_hash ∷ []))
    return res.stdout

  -- The words of `AuthzGrant`.
  unfoldable pub authz_flags : String → List String → Ended (List String)
  unfolding prefix_after
  authz_flags auth_type flags =
      if auth_type == "generic" then found (prefix_after flags) else done flags
    where
      found : Ended (Option (List String)) → Ended (List String)
      found (done none) = fails "missing --msg-type flag when granting generic authz"
      found (done (some l)) = done l
      found (fails e) = fails e
      found panics = panics
      found blocks = blocks

  -- `AuthzGrant`
  unfoldable pub authz_grant : Wallet → String → String → List String → Action Host String
  unfolding authz_flags exec_tx tx_hash_to_response contains
  authz_grant granter grantee auth_type extra_flags =
      if not (contains allowed auth_type)
      then errorf (cat "invalid auth type: " (cat auth_type (cat " allowed: " allowed)))
      else (do
        flags ← ended (authz_flags auth_type extra_flags)
        tx_hash ←
            exec_tx packages docker cfg tn granter.key_name
              (("authz" ∷ "grant" ∷ grantee ∷ auth_type ∷ flags) ++ ("--output" ∷ "json" ∷ []))
        tx_hash_to_response tx_hash)

  -- `createAuthzJSON`: standard error is nil where nothing was written to it.
  unfoldable pub create_authz_json : String → List String → Action Host (Unit {0})
  unfolding exec write_node_file contains
  create_authz_json file_path gen_msg_cmd = do
    let words =
        gen_msg_cmd
        ++ if_any (not (contains (join " " gen_msg_cmd) "--generate-only")) ("--generate-only" ∷ [])
    res ← exec packages docker cfg tn words
    check (if res.stderr == "" then none else some (cat "failed to generate msg: " res.stderr))
    check res.err
    write_node_file packages docker cfg tn res.stdout file_path

  -- `AuthzExec`
  unfoldable pub authz_exec : Wallet → List String → Action Host String
  unfolding create_authz_json exec_tx tx_hash_to_response home_dir
  authz_exec grantee nested_msg_cmd = do
    create_authz_json "authz.json" nested_msg_cmd
    tx_hash ←
        exec_tx packages docker cfg tn grantee.key_name
          ("authz" ∷ "exec" ∷ packages.path_join (home_dir packages cfg ∷ "authz.json" ∷ []) ∷ [])
    tx_hash_to_response tx_hash

  -- `AuthzRevoke`
  unfoldable pub authz_revoke : Wallet → String → String → Action Host String
  unfolding prefix_msg_type_if_required exec_tx tx_hash_to_response
  authz_revoke granter grantee msg_type = do
    tx_hash ←
        exec_tx packages docker cfg tn granter.key_name
          ("authz" ∷ "revoke" ∷ grantee ∷ prefix_msg_type_if_required msg_type ∷ [])
    tx_hash_to_response tx_hash

  -- `FeeGrant`: the expiration is `none` where it has passed.
  abbrev pub expiration_flag : Option String → List String
  expiration_flag none = []
  expiration_flag (some t) = "--expiration" ∷ t ∷ []

  unfoldable pub fee_grant :
      String → String → String → List String → Option String → List String → Action Host (Unit {0})
  unfolding prefix_msg_type_if_required exec_tx
  fee_grant granter_key grantee spend_limit allowed_msgs expiration extra_flags = only (
      exec_tx packages docker cfg tn granter_key (
        ("feegrant"
          ∷ "grant"
          ∷ granter_key
          ∷ grantee
          ∷ "--spend-limit"
          ∷ spend_limit
          ∷ allowed_flag allowed_msgs)
        ++ (expiration_flag expiration ++ extra_flags)))
    where
      allowed_flag : List String → List String
      allowed_flag [] = []
      allowed_flag (m ∷ ms) =
          "--allowed-messages" ∷ join "," (map prefix_msg_type_if_required (m ∷ ms)) ∷ []

  -- `FeeGrantRevoke`
  unfoldable pub fee_grant_revoke : String → String → String → Action Host (Unit {0})
  unfolding exec_tx
  fee_grant_revoke key_name granter_addr grantee_addr = only (
      exec_tx packages docker cfg tn key_name
        ("feegrant" ∷ "revoke" ∷ granter_addr ∷ grantee_addr ∷ []))

  -- `VestingCreateAccount`
  unfoldable pub vesting_create_account :
      String → String → String → ℤ → List String → Action Host (Unit {0})
  unfolding exec_tx
  vesting_create_account key_name to_addr coin end_time flags = only (
      exec_tx packages docker cfg tn key_name
        ("vesting" ∷ "create-vesting-account" ∷ to_addr ∷ coin ∷ show_int end_time ∷ flags))

  -- `VestingCreatePermanentLockedAccount`
  unfoldable pub vesting_create_permanent_locked_account :
      String → String → String → List String → Action Host (Unit {0})
  unfolding exec_tx
  vesting_create_permanent_locked_account key_name to_addr coin flags = only (
      exec_tx packages docker cfg tn key_name
        ("vesting" ∷ "create-permanent-locked-account" ∷ to_addr ∷ coin ∷ flags))

  -- `VestingCreatePeriodicAccount`, with the marshalled periods.
  unfoldable pub vesting_create_periodic_account :
      String → String → Ended String → List String → Action Host (Unit {0})
  unfolding write_node_file exec_tx home_dir
  vesting_create_periodic_account key_name to_addr periods_json flags = do
    content ← ended periods_json
    wrapping (cat "writing periods JSON file to docker volume: ")
        (write_node_file packages docker cfg tn content "periods.json")
    only (
        exec_tx packages docker cfg tn key_name (
          "vesting"
          ∷ "create-periodic-vesting-account"
          ∷ to_addr
          ∷ packages.path_join (home_dir packages cfg ∷ "periods.json" ∷ [])
          ∷ flags))
