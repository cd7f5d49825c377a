-- ===== src/Cosmos/Modules/Staking.antt =====
-- The transactions of chain/cosmos/module_staking.go, module_distribution.go, module_slashing.go and
-- module_upgrade.go.
use interchaintest.Base.{
  suc, String, Bool, not, List, [], ◌∷◌, ◌++◌, ◌==◌, ℤ, pos, nat_eq, string_eq,
}
use interchaintest.Base.Actions.{Action}
use interchaintest.Ibc.Config.{ChainConfig}
use interchaintest.Dockerutil.{Host, Docker}
use interchaintest.Cosmos.{Packages, ChainNode, show, show_int}
use interchaintest.Cosmos.Exec.{exec_tx}
use interchaintest.Cosmos.Modules.Tx.{only, if_any}

module _ (packages : Packages) (docker : Docker) (cfg : ChainConfig) (tn : ChainNode) where
  -- `StakingCancelUnbond`
  unfoldable pub staking_cancel_unbond : String → String → String → ℤ → Action Host (Unit {0})
  unfolding exec_tx
  staking_cancel_unbond key_name validator_addr coin_amt creation_height = only (
      exec_tx packages docker cfg tn key_name
        ("staking" ∷ "cancel-unbond" ∷ validator_addr ∷ coin_amt ∷ show_int creation_height ∷ []))

  -- `StakingCreateValidator`
  unfoldable pub staking_create_validator : String → String → Action Host (Unit {0})
  unfolding exec_tx
  staking_create_validator key_name val_file_path = only (
      exec_tx packages docker cfg tn key_name ("staking" ∷ "create-validator" ∷ val_file_path ∷ []))

  -- `StakingDelegate`
  unfoldable pub staking_delegate : String → String → String → Action Host (Unit {0})
  unfolding exec_tx
  staking_delegate key_name validator_addr amount = only (
      exec_tx packages docker cfg tn key_name
        ("staking" ∷ "delegate" ∷ validator_addr ∷ amount ∷ []))

  -- `StakingUnbond`
  unfoldable pub staking_unbond : String → String → String → Action Host (Unit {0})
  unfolding exec_tx
  staking_unbond key_name validator_addr amount = only (
      exec_tx packages docker cfg tn key_name ("staking" ∷ "unbond" ∷ validator_addr ∷ amount ∷ []))

  -- `StakingEditValidator`
  unfoldable pub staking_edit_validator : String → List String → Action Host (Unit {0})
  unfolding exec_tx
  staking_edit_validator key_name flags =
      only (exec_tx packages docker cfg tn key_name ("staking" ∷ "edit-validator" ∷ flags))

  -- `StakingRedelegate`
  unfoldable pub staking_redelegate : String → String → String → String → Action Host (Unit {0})
  unfolding exec_tx
  staking_redelegate key_name src_val_addr dst_val_addr amount = only (
      exec_tx packages docker cfg tn key_name
        ("staking" ∷ "redelegate" ∷ src_val_addr ∷ dst_val_addr ∷ amount ∷ []))

  -- `DistributionFundCommunityPool`
  unfoldable pub distribution_fund_community_pool : String → String → Action Host (Unit {0})
  unfolding exec_tx
  distribution_fund_community_pool key_name amount = only (
      exec_tx packages docker cfg tn key_name
        ("distribution" ∷ "fund-community-pool" ∷ amount ∷ []))

  -- `DistributionFundValidatorRewardsPool`
  unfoldable pub distribution_fund_validator_rewards_pool :
      String → String → String → Action Host (Unit {0})
  unfolding exec_tx
  distribution_fund_validator_rewards_pool key_name val_addr amount = only (
      exec_tx packages docker cfg tn key_name
        ("distribution" ∷ "fund-validator-rewards-pool" ∷ val_addr ∷ amount ∷ []))

  -- `DistributionSetWithdrawAddr`
  unfoldable pub distribution_set_withdraw_addr : String → String → Action Host (Unit {0})
  unfolding exec_tx
  distribution_set_withdraw_addr key_name withdraw_addr = only (
      exec_tx packages docker cfg tn key_name
        ("distribution" ∷ "set-withdraw-addr" ∷ withdraw_addr ∷ []))

  -- `DistributionWithdrawAllRewards`
  unfoldable pub distribution_withdraw_all_rewards : String → Action Host (Unit {0})
  unfolding exec_tx
  distribution_withdraw_all_rewards key_name =
      only (exec_tx packages docker cfg tn key_name ("distribution" ∷ "withdraw-all-rewards" ∷ []))

  -- `DistributionWithdrawValidatorRewards`
  unfoldable pub distribution_withdraw_validator_rewards :
      String → String → Bool → Action Host (Unit {0})
  unfolding exec_tx
  distribution_withdraw_validator_rewards key_name val_addr include_commission = only (
      exec_tx packages docker cfg tn key_name (
        "distribution"
        ∷ "withdraw-rewards"
        ∷ val_addr
        ∷ if_any include_commission ("--commission" ∷ [])))

  -- `SlashingUnJail`
  unfoldable pub slashing_un_jail : String → Action Host (Unit {0})
  unfolding exec_tx
  slashing_un_jail key_name =
      only (exec_tx packages docker cfg tn key_name ("slashing" ∷ "unjail" ∷ []))

  abbrev pub height_flag : ℤ → List String
  height_flag (pos (suc n)) = "--upgrade-height" ∷ show (suc n) ∷ []
  height_flag h = []

  -- `UpgradeSoftware`
  unfoldable pub upgrade_software :
      String → String → String → ℤ → List String → Action Host (Unit {0})
  unfolding exec_tx
  upgrade_software key_name name info height extra_flags = only (
      exec_tx packages docker cfg tn key_name (
        ("upgrade" ∷ "software-upgrade" ∷ name ∷ height_flag height)
        ++ (if_any (not (info == "")) ("--upgrade-info" ∷ info ∷ []) ++ extra_flags)))

  -- `UpgradeCancel`
  unfoldable pub upgrade_cancel : String → List String → Action Host (Unit {0})
  unfolding exec_tx
  upgrade_cancel key_name extra_flags = only (
      exec_tx packages docker cfg tn key_name ("upgrade" ∷ "cancel-software-upgrade" ∷ extra_flags))
