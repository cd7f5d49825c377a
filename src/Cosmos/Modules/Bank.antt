-- ===== src/Cosmos/Modules/Bank.antt =====
-- The transactions of chain/cosmos/module_bank.go and module_crisis.go.
use interchaintest.Base.{String, List, [], ◌∷◌, ◌++◌, ℤ, nat_eq, string_eq}
use interchaintest.Base.Actions.{Action}
use interchaintest.Ibc.Config.{ChainConfig}
use interchaintest.Interchain.{WalletAmount}
use interchaintest.Dockerutil.{Host, Docker}
use interchaintest.Cosmos.{Packages, ChainNode}
use interchaintest.Cosmos.Exec.{exec_tx}
use interchaintest.Cosmos.Files.{coin_text}
use interchaintest.Cosmos.Modules.Tx.{only}

module _ (packages : Packages) (docker : Docker) (cfg : ChainConfig) (tn : ChainNode) where
  -- `BankSend`
  unfoldable pub bank_send : String → WalletAmount → Action Host (Unit {0})
  unfolding exec_tx coin_text
  bank_send key_name amount = only (
      exec_tx packages docker cfg tn key_name (
        "bank"
        ∷ "send"
        ∷ key_name
        ∷ amount.address
        ∷ (coin_text (record { denom = amount.denom; amount = amount.amount }))
        ∷ []))

  -- `BankSendWithNote`
  unfoldable pub bank_send_with_note : String → WalletAmount → String → Action Host String
  unfolding exec_tx coin_text
  bank_send_with_note key_name amount note = exec_tx packages docker cfg tn key_name (
      "bank"
      ∷ "send"
      ∷ key_name
      ∷ amount.address
      ∷ (coin_text (record { denom = amount.denom; amount = amount.amount }))
      ∷ "--note"
      ∷ note
      ∷ [])

  -- `SendFunds`
  unfoldable pub send_funds : String → WalletAmount → Action Host (Unit {0})
  unfolding bank_send
  send_funds key_name amount = bank_send key_name amount

  -- `BankMultiSend`
  unfoldable pub bank_multi_send : String → List String → ℤ → String → Action Host (Unit {0})
  unfolding exec_tx coin_text
  bank_multi_send key_name addresses amount denom = only (
      exec_tx packages docker cfg tn key_name (
        ("bank" ∷ "multi-send" ∷ key_name ∷ addresses)
        ++ (coin_text (record { denom = denom; amount = amount }) ∷ [])))

  -- `CrisisInvariantBroken`
  unfoldable pub crisis_invariant_broken : String → String → String → Action Host (Unit {0})
  unfolding exec_tx
  crisis_invariant_broken key_name module_name route = only (
      exec_tx packages docker cfg tn key_name
        ("crisis" ∷ "invariant-broken" ∷ module_name ∷ route ∷ []))
