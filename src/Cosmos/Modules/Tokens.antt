-- ===== src/Cosmos/Modules/Tokens.antt =====
-- The transactions of chain/cosmos/module_tokenfactory.go and osmosis.go. A uint64 is a natural number
-- below 2 ^ 64; the JSON that is written and read is a parameter.
use interchaintest.Base.{
  ℕ, String, not, Option, none, some, List, [], ◌∷◌, ◌==◌, cat, join, nat_eq, string_eq,
}
use interchaintest.Base.Actions.{Ended, Action, ◌>>=◌, ◌>>◌, return, wrapping, errorf}
use interchaintest.Ibc.Config.{ChainConfig}
use interchaintest.Interchain.{Wallet}
use interchaintest.Dockerutil.{Host, Docker}
use interchaintest.Cosmos.{Packages, ChainNode, show}
use interchaintest.Cosmos.Commands.{home_dir}
use interchaintest.Cosmos.Exec.{ended, exec_query, exec_tx, write_node_file}
use interchaintest.Cosmos.Modules.Tx.{if_any}

module _ (packages : Packages) (docker : Docker) (cfg : ChainConfig) (tn : ChainNode) where
  -- `convertToCoin`
  unfoldable pub convert_to_coin : ℕ → String → String
  convert_to_coin amount denom = cat (show amount) denom

  -- `TokenFactoryCreateDenom`
  unfoldable pub token_factory_create_denom : Wallet → String → ℕ → Action Host (String × String)
  unfolding exec_tx
  token_factory_create_denom user denom_name gas = do
    tx_hash ← exec_tx packages docker cfg tn user.key_name (
        "tokenfactory"
        ∷ "create-denom"
        ∷ denom_name
        ∷ if_any (not (gas == 0)) ("--gas" ∷ show gas ∷ []))
    return (cat "factory/" (cat user.formatted_address (cat "/" denom_name)), tx_hash)

  -- `TokenFactoryBurnDenom`
  unfoldable pub token_factory_burn_denom : String → String → ℕ → Action Host String
  unfolding exec_tx convert_to_coin
  token_factory_burn_denom key_name full_denom amount =
      exec_tx packages docker cfg tn key_name
        ("tokenfactory" ∷ "burn" ∷ convert_to_coin amount full_denom ∷ [])

  -- `TokenFactoryBurnDenomFrom`
  unfoldable pub token_factory_burn_denom_from : String → String → ℕ → String → Action Host String
  unfolding exec_tx convert_to_coin
  token_factory_burn_denom_from key_name full_denom amount from_addr =
      exec_tx packages docker cfg tn key_name
        ("tokenfactory" ∷ "burn-from" ∷ from_addr ∷ convert_to_coin amount full_denom ∷ [])

  -- `TokenFactoryChangeAdmin`
  unfoldable pub token_factory_change_admin : String → String → String → Action Host String
  unfolding exec_tx
  token_factory_change_admin key_name full_denom new_admin =
      exec_tx packages docker cfg tn key_name
        ("tokenfactory" ∷ "change-admin" ∷ full_denom ∷ new_admin ∷ [])

  -- `TokenFactoryForceTransferDenom`
  unfoldable pub token_factory_force_transfer_denom :
      String → String → ℕ → String → String → Action Host String
  unfolding exec_tx convert_to_coin
  token_factory_force_transfer_denom key_name full_denom amount from_addr to_addr =
      exec_tx packages docker cfg tn key_name (
        "tokenfactory"
        ∷ "force-transfer"
        ∷ convert_to_coin amount full_denom
        ∷ from_addr
        ∷ to_addr
        ∷ [])

  -- `TokenFactoryMintDenom`
  unfoldable pub token_factory_mint_denom : String → String → ℕ → Action Host String
  unfolding exec_tx convert_to_coin
  token_factory_mint_denom key_name full_denom amount =
      exec_tx packages docker cfg tn key_name
        ("tokenfactory" ∷ "mint" ∷ convert_to_coin amount full_denom ∷ [])

  -- `TokenFactoryMintDenomTo`
  unfoldable pub token_factory_mint_denom_to : String → String → ℕ → String → Action Host String
  unfolding exec_tx convert_to_coin
  token_factory_mint_denom_to key_name full_denom amount to_addr =
      exec_tx packages docker cfg tn key_name
        ("tokenfactory" ∷ "mint-to" ∷ to_addr ∷ convert_to_coin amount full_denom ∷ [])

  -- `TokenFactoryMetadata`
  unfoldable pub token_factory_metadata : String → String → String → String → ℕ → Action Host String
  unfolding exec_tx
  token_factory_metadata key_name full_denom ticker description exponent =
      exec_tx packages docker cfg tn key_name (
        "tokenfactory" ∷ "modify-metadata" ∷ full_denom ∷ ticker ∷ description ∷ show exponent ∷ [])

  -- `OsmosisCreatePool`: `poolbz` is the marshalled parameters, and `num_pools` reads the number of pools
  -- in the answer, `none` where it has no such key.
  unfoldable pub osmosis_create_pool :
      String → Ended String → (String → Ended (Option String)) → Action Host String
  unfolding write_node_file exec_tx exec_query home_dir
  osmosis_create_pool key_name poolbz num_pools = do
    params ← ended poolbz
    wrapping (cat "failed to write pool file: ")
        (write_node_file packages docker cfg tn params "pool.json")
    wrapping (cat "failed to create pool: ") (
        exec_tx packages docker cfg tn key_name (
          "gamm"
          ∷ "create-pool"
          ∷ "--pool-file"
          ∷ packages.path_join (home_dir packages cfg ∷ "pool.json" ∷ [])
          ∷ []))
    res ←
        wrapping (cat "failed to query num pools: ")
          (exec_query packages docker cfg tn ("gamm" ∷ "num-pools" ∷ []))
    found ← wrapping (cat "failed to unmarshal query response: ") (ended (num_pools res.stdout))
    elim found [
      | none ↦ errorf "could not find number of pools in query response: %!w(<nil>)"
      | some n ↦ return n
    ]

  -- `OsmosisSwapExactAmountIn`
  unfoldable pub osmosis_swap_exact_amount_in :
      String → String → String → List String → List String → Action Host String
  unfolding exec_tx
  osmosis_swap_exact_amount_in key_name coin_in min_amount_out pool_ids swap_denoms =
      exec_tx packages docker cfg tn key_name (
        "gamm"
        ∷ "swap-exact-amount-in"
        ∷ coin_in
        ∷ min_amount_out
        ∷ "--swap-route-pool-ids"
        ∷ join "," pool_ids
        ∷ "--swap-route-denoms"
        ∷ join "," swap_denoms
        ∷ [])
