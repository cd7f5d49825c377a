-- ===== src/Cosmos/Exec.antt =====
-- The commands that a node runs (chain/cosmos/chain_node.go): `Exec` and the methods on it, with
-- `ExecTx`. A command is run to its end in a container of its own. The lock that some methods hold
-- while they run is left out: none of them calls another that takes it.
use interchaintest.Base.{
  ℕ, zero, suc, String, Bool, true, false, Option, none, some, List, [], ◌∷◌, ◌++◌, if◌then◌else◌,
  ◌==◌, ℤ, cat, join, pos, negsuc, contains, nat_eq, string_eq,
}
use interchaintest.Base.Actions.{
  Ended, Action, done, ◌>>=◌, ◌>>◌, return, errorf, check, wrapping, block,
}
use interchaintest.Ibc.Image.{DockerImage}
use interchaintest.Ibc.Config.{ChainConfig}
use interchaintest.Dockerutil.{run, read_file, write_file, Host, Docker, ask, tell}
use interchaintest.Testutil.Wait.{WaitResult, reached, height_error, running, wait_for_delta, fresh}
use interchaintest.Cosmos.{CosmosTx, Packages, ChainNode, show_int, node_name}
use interchaintest.Cosmos.Commands.{home_dir, bind, bin_command, query_command, tx_command}

-- What `Exec` returns: the output, and the error.
pub record ExecOutput : Type 0 where
  pub stdout : String
  pub stderr : String
  pub err : Option String

abbrev pub ended : {S A : Type 0} → Ended A → Action S A
ended e s = (e, s)

-- The reference of the image in `dockerutil.NewImage`.
unfoldable pub image_name : DockerImage → String
image_name i = cat i.repository (cat ":" (if i.version == "" then "latest" else i.version))

-- `if output.Code != 0`; the hash that is returned with the error is left out.
abbrev pub code_error : String → ℤ → Option String
code_error raw_log (pos zero) = none
code_error raw_log (pos (suc n)) =
    some (cat "transaction failed with code " (cat (show_int (pos (suc n))) (cat ": " raw_log)))
code_error raw_log (negsuc n) =
    some (cat "transaction failed with code " (cat (show_int (negsuc n)) (cat ": " raw_log)))

module _ (packages : Packages) (docker : Docker) (cfg : ChainConfig) where
  -- `(*ChainNode).Exec`
  unfoldable pub exec : ChainNode → List String → Action Host ExecOutput
  unfolding image_name bind
  exec tn cmd h =
      let asked = run (image_name tn.image) cmd cfg.env (bind packages cfg tn) in
      let out = docker.result h.calls asked in
      (
        done
            (record { stdout = out.stdout; stderr = out.stderr; err = docker.fault h.calls asked }),
        record h { calls = asked ∷ h.calls },
      )

  -- A command whose error is returned.
  unfoldable pub exec_ok : ChainNode → List String → Action Host ExecOutput
  unfolding exec
  exec_ok tn cmd = do res ← exec tn cmd; check res.err; return res

  -- `ExecBin` and `ExecQuery`
  unfoldable pub exec_bin : ChainNode → List String → Action Host ExecOutput
  unfolding exec_ok bin_command
  exec_bin tn command = exec_ok tn (bin_command packages cfg command)

  unfoldable pub exec_query : ChainNode → List String → Action Host ExecOutput
  unfolding exec_ok query_command
  exec_query tn command = exec_ok tn (query_command packages cfg tn command)

  -- `testutil.WaitForBlocks` on the node.
  abbrev pub waited : WaitResult → Action Host (Unit {0})
  waited (reached h) = return tt
  waited (height_error e) = errorf (packages.height_error e)
  waited running = block

  unfoldable pub wait_for_blocks : ℕ → ChainNode → Action Host (Unit {0})
  unfolding wait_for_delta node_name
  wait_for_blocks delta tn h =
      waited
        (wait_for_delta (packages.heights (node_name cfg tn) h.calls) packages.patience 0 delta
          fresh)
        h

  abbrev pub rejected : CosmosTx → Option String
  rejected tx = code_error tx.raw_log tx.code

  -- `ExecTx`
  unfoldable pub exec_tx : ChainNode → String → List String → Action Host String
  unfolding exec_ok exec_query tx_command wait_for_blocks
  exec_tx tn key_name command = do
    res ← exec_ok tn (tx_command packages cfg tn key_name command)
    output ← ended (packages.unmarshal_tx res.stdout)
    check (rejected output)
    wait_for_blocks 2 tn
    res' ← exec_query tn ("tx" ∷ output.tx_hash ∷ [])
    included ← ended (packages.unmarshal_tx res'.stdout)
    check (rejected included)
    return included.tx_hash

  -- `HasCommand`
  abbrev pub says : Option String → Bool
  says none = true
  says (some e) = if contains e "Error: unknown command" then false else contains e "Error: accepts"

  unfoldable pub has_command : ChainNode → List String → Action Host Bool
  unfolding exec bin_command
  has_command tn command = do
    res ← exec tn (bin_command packages cfg command)
    return (says res.err)

  -- `IsAboveSDK47`
  unfoldable pub is_above_sdk47 : ChainNode → Action Host Bool
  unfolding has_command
  is_above_sdk47 tn = has_command tn ("genesis" ∷ [])

  -- `CreateKey`
  unfoldable pub create_key : ChainNode → String → Action Host (Unit {0})
  unfolding exec_bin
  create_key tn name = do
    exec_bin tn
        ("keys" ∷ "add" ∷ name ∷ "--coin-type" ∷ cfg.coin_type ∷ "--keyring-backend" ∷ "test" ∷ [])
    return tt

  -- `RecoverKey`
  unfoldable pub recover_key : ChainNode → String → String → Action Host (Unit {0})
  unfolding exec_ok home_dir
  recover_key tn key_name mnemonic = do
    exec_ok tn (
        "sh"
        ∷ "-c"
        ∷ join "" (
            "echo "
            ∷ packages.quote mnemonic
            ∷ " | "
            ∷ cfg.bin
            ∷ " keys add "
            ∷ key_name
            ∷ " --recover --keyring-backend test --coin-type "
            ∷ cfg.coin_type
            ∷ " --home "
            ∷ home_dir packages cfg
            ∷ " --output json"
            ∷ [])
        ∷ [])
    return tt

  -- `bytes.TrimSuffix(stdout, "\n")`
  unfoldable pub trim_newline : String → String
  trim_newline String.[] = ""
  trim_newline (String.◌∷◌ c s) =
      let rest = trim_newline s in if String.◌∷◌ c s == "\n" then "" else String.◌∷◌ c rest

  -- `KeyBech32`
  unfoldable pub key_bech32 : ChainNode → String → String → Action Host String
  unfolding exec home_dir trim_newline
  key_bech32 tn name bech = do
    let command =
        cfg.bin
        ∷ "keys"
        ∷ "show"
        ∷ "--address"
        ∷ name
        ∷ "--home"
        ∷ home_dir packages cfg
        ∷ "--keyring-backend"
        ∷ "test"
        ∷ []
    res ← exec tn (if bech == "" then command else command ++ ("--bech" ∷ bech ∷ []))
    wrapping
        (cat (
          join "" (
            "failed to show key "
            ∷ packages.quote name
            ∷ " (stderr="
            ∷ packages.quote res.stderr
            ∷ "): "
            ∷ [])))
        (check res.err)
    return (trim_newline res.stdout)

  -- `AccountKeyBech32`
  unfoldable pub account_key_bech32 : ChainNode → String → Action Host String
  unfolding key_bech32
  account_key_bech32 tn name = key_bech32 tn name ""

  -- `(*ChainNode).ReadFile` and `(*ChainNode).WriteFile`
  unfoldable pub read_node_file : ChainNode → String → Action Host String
  unfolding ask
  read_node_file tn rel_path =
      wrapping (cat (cat "failed to read file at " (cat rel_path ": ")))
        (ask docker (read_file tn.volume_name rel_path) docker.text)

  unfoldable pub write_node_file : ChainNode → String → String → Action Host (Unit {0})
  unfolding ask
  write_node_file tn content rel_path = tell docker (write_file tn.volume_name rel_path content)

  -- `NodeID`
  unfoldable pub node_id : ChainNode → Action Host String
  unfolding read_node_file
  node_id tn = do
    j ← wrapping (cat "getting node_key.json content: ") (read_node_file tn "config/node_key.json")
    wrapping (cat "unmarshaling node_key.json: ") (ended (packages.node_id j))
