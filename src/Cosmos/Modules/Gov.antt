-- ===== src/Cosmos/Modules/Gov.antt =====
-- The proposals of chain/cosmos/module_gov.go and the messages of interchain accounts of
-- chain/cosmos/chain_node.go. The JSON that is written is a parameter, and so is the hash of a content.
use interchaintest.Base.{
  ℕ, suc, String, Bool, not, Option, none, some, List, [], ◌∷◌, ◌++◌, if◌then◌else◌, ◌==◌, ℤ, cat,
  pos, nat_eq, string_eq,
}
use interchaintest.Base.Actions.{Ended, Action, done, ◌>>=◌, ◌>>◌, wrapping}
use interchaintest.Ibc.Config.{ChainConfig}
use interchaintest.Interchain.{WalletAmount}
use interchaintest.Dockerutil.{Host, Docker}
use interchaintest.Cosmos.{Packages, ChainNode, show, show_int}
use interchaintest.Cosmos.Commands.{home_dir}
use interchaintest.Cosmos.Exec.{ended, exec_tx, is_above_sdk47, write_node_file}
use interchaintest.Cosmos.Files.{coin_text}
use interchaintest.Cosmos.Modules.Tx.{only, if_any}

-- `SoftwareUpgradeProposal` and `TextProposal`
pub record SoftwareUpgradeProposal : Type 0 where
  pub deposit : String
  pub title : String
  pub name : String
  pub description : String
  pub height : ℤ
  pub info : String
  pub proposer : String
  pub expedited : Bool
  pub authority : String

pub record TextProposal : Type 0 where
  pub deposit : String
  pub title : String
  pub description : String
  pub expedited : Bool

-- `IBCTimeout` and `TransferOptions`
pub record IbcTimeout : Type 0 where
  pub nano_seconds : ℕ
  pub height : ℤ

pub record TransferOptions : Type 0 where
  pub timeout : Option IbcTimeout
  pub memo : String
  pub port : String
  pub absolute_timeouts : Bool

module _ (packages : Packages) (docker : Docker) (cfg : ChainConfig) (tn : ChainNode) where
  -- `VoteOnProposal`
  unfoldable pub vote_on_proposal : String → ℕ → String → Action Host (Unit {0})
  unfolding exec_tx
  vote_on_proposal key_name proposal_id vote = only (
      exec_tx packages docker cfg tn key_name
        ("gov" ∷ "vote" ∷ show proposal_id ∷ vote ∷ "--gas" ∷ "auto" ∷ []))

  -- A file in the home directory.
  abbrev pub at_home : String → String
  at_home file = packages.path_join (home_dir packages cfg ∷ file ∷ [])

  -- `SubmitProposal`, with the marshalled proposal.
  unfoldable pub submit_proposal : String → Ended String → Action Host String
  unfolding write_node_file exec_tx home_dir
  submit_proposal key_name prop_json = do
    content ← ended prop_json
    wrapping (cat "writing contract file to docker volume: ")
        (write_node_file packages docker cfg tn content "proposal.json")
    exec_tx packages docker cfg tn key_name
        ("gov" ∷ "submit-proposal" ∷ at_home "proposal.json" ∷ "--gas" ∷ "auto" ∷ [])

  -- `UpgradeProposal`: from SDK v47 on, the proposal that `build` gives, with the governance address
  -- where the authority is "".
  unfoldable pub upgrade_proposal :
      (String → Ended String) → Ended String → String → SoftwareUpgradeProposal → Action Host String
  unfolding is_above_sdk47 submit_proposal exec_tx
  upgrade_proposal build governance_address key_name prop = do
    above ← is_above_sdk47 packages docker cfg tn
    if above
        then (do
          authority ←
              ended (if prop.authority == "" then governance_address else done prop.authority)
          submit_proposal key_name (build authority))
        else exec_tx packages docker cfg tn key_name (
            ("gov"
              ∷ "submit-proposal"
              ∷ "software-upgrade"
              ∷ prop.name
              ∷ "--upgrade-height"
              ∷ show_int prop.height
              ∷ "--title"
              ∷ prop.title
              ∷ "--description"
              ∷ prop.description
              ∷ "--deposit"
              ∷ prop.deposit
              ∷ [])
            ++ if_any (not (prop.info == "")) ("--upgrade-info" ∷ prop.info ∷ []))

  -- `(*ChainNode).TextProposal`
  unfoldable pub text_proposal : String → TextProposal → Action Host String
  unfolding exec_tx
  text_proposal key_name prop = exec_tx packages docker cfg tn key_name (
      ("gov" ∷ "submit-proposal" ∷ "--type" ∷ "text" ∷ "--title" ∷ prop.title ∷ "--description"
        ∷ prop.description ∷ "--deposit" ∷ prop.deposit ∷ [])
      ++ if_any prop.expedited ("--is-expedited=true" ∷ []))

  -- `(*ChainNode).ParamChangeProposal`, with the marshalled proposal.
  unfoldable pub param_change_proposal :
      (String → String) → String → Ended String → Action Host String
  unfolding write_node_file exec_tx home_dir
  param_change_proposal sha256_hex key_name prop_json = do
    content ← ended prop_json
    let file = cat (sha256_hex content) ".json"
    wrapping (cat "writing param change proposal: ")
        (write_node_file packages docker cfg tn content file)
    exec_tx packages docker cfg tn key_name
        ("gov" ∷ "submit-proposal" ∷ "param-change" ∷ at_home file ∷ [])

  -- `(*ChainNode).ConsumerAdditionProposal`, with the random part of the file's name.
  unfoldable pub consumer_addition_proposal : String → String → Ended String → Action Host String
  unfolding write_node_file exec_tx home_dir
  consumer_addition_proposal letters key_name prop_json = do
    content ← ended prop_json
    let file = cat "proposal_" (cat letters ".json")
    wrapping (cat "failure writing proposal json: ")
        (write_node_file packages docker cfg tn content file)
    exec_tx packages docker cfg tn key_name (
        "gov"
        ∷ "submit-legacy-proposal"
        ∷ "consumer-addition"
        ∷ at_home file
        ∷ "--gas"
        ∷ "auto"
        ∷ [])

  -- The options of `SendIBCTransfer`.
  abbrev pub timeout_flags : Option IbcTimeout → Bool → List String
  timeout_flags none absolute = []
  timeout_flags (some t) absolute =
      if_any (not (t.nano_seconds == 0)) ("--packet-timeout-timestamp" ∷ show t.nano_seconds ∷ [])
      ++ (height_flag t.height ++ if_any absolute ("--absolute-timeouts" ∷ []))
    where
      height_flag : ℤ → List String
      height_flag (pos (suc n)) = "--packet-timeout-height" ∷ cat "0-" (show (suc n)) ∷ []
      height_flag h = []

  -- `(*ChainNode).SendIBCTransfer`
  unfoldable pub send_ibc_transfer :
      String → String → WalletAmount → TransferOptions → Action Host String
  unfolding exec_tx coin_text
  send_ibc_transfer channel_id key_name amount options = exec_tx packages docker cfg tn key_name (
      ("ibc-transfer"
        ∷ "transfer"
        ∷ (if options.port == "" then "transfer" else options.port)
        ∷ channel_id
        ∷ amount.address
        ∷ coin_text (record { denom = amount.denom; amount = amount.amount })
        ∷ "--gas"
        ∷ "auto"
        ∷ [])
      ++ (timeout_flags options.timeout options.absolute_timeouts
          ++ if_any (not (options.memo == "")) ("--memo" ∷ options.memo ∷ [])))

  -- `RegisterICA`
  unfoldable pub register_ica : String → String → Action Host String
  unfolding exec_tx
  register_ica key_name connection_id =
      exec_tx packages docker cfg tn key_name
        ("interchain-accounts" ∷ "controller" ∷ "register" ∷ connection_id ∷ [])

  -- `(*ChainNode).SendICATx`, with the packet's bytes.
  unfoldable pub send_ica_tx : String → String → Ended String → Action Host String
  unfolding exec_tx
  send_ica_tx key_name connection_id packet_bytes = do
    packet ← ended packet_bytes
    exec_tx packages docker cfg tn key_name
        ("interchain-accounts" ∷ "controller" ∷ "send-tx" ∷ connection_id ∷ packet ∷ [])
