-- ===== src/Testutil/Wait.antt =====
-- testutil/wait.go: waiting for a number of blocks, for a condition on blocks, and for nodes to catch
-- up. What a chain answers to the n-th question for its height is a parameter; heights are natural
-- numbers. A loop that has used up its fuel is still running.
pub mod Laws
pub mod Delta
use interchaintest.Base.{
  ℕ, zero, suc, ◌+◌, ◌⊎◌, inl, inr, Bool, Option, none, some, List, [], ◌∷◌, ltb, if◌then◌else◌,
  ◌==◌, nat_eq,
}

-- `height`, with its two numbers.
pub record Height : Type 0 where
  pub starting : ℕ
  pub current : ℕ

-- `h.delta() < delta`, for a delta that is not negative.
unfoldable pub behind : Height → ℕ → Bool
behind h delta = if h.starting == 0 then ltb 0 delta else ltb h.current (h.starting + delta)

-- `(*height).update`
unfoldable pub update : ℕ → Height → Height
update height h =
    if h.starting == 0
    then record { starting = height; current = height }
    else record h { current = height }

pub data WaitResult : Type 0 where
  reached : Height → WaitResult
  height_error : ℕ → WaitResult
  running : WaitResult

pub data Answer : Type 0 where
  height : ℕ → Answer
  failed : ℕ → Answer

-- `(*height).WaitForDelta`
unfoldable pub wait_for_delta : (ℕ → Answer) → ℕ → ℕ → ℕ → Height → WaitResult
wait_for_delta chain zero round delta h = running
wait_for_delta chain (suc fuel) round delta h =
    let asked = elim (chain round) as (λ _. WaitResult) [
      | failed e ↦ height_error e
      | height zero ↦ wait_for_delta chain fuel (suc round) delta h
      | height (suc cur) ↦ wait_for_delta chain fuel (suc round) delta (update (suc cur) h)
    ] in
    if behind h delta then asked else reached h

abbrev pub fresh : Height
fresh = record { starting = 0; current = 0 }

-- `WaitForBlocksUtil`: `fn` is known by what it returns at each index, `none` for nil.
unfoldable pub blocks_loop {ℓ} : {E : Type ℓ} → (ℕ → Option E) → ℕ → ℕ → Option E
blocks_loop fn zero i = none
blocks_loop fn (suc rest) i =
    let next = blocks_loop fn rest (suc i) in
    elim (fn i) [ none ↦ none | some e ↦ if rest == 0 then some e else next ]

unfoldable pub wait_for_blocks_util {ℓ} : {E : Type ℓ} → ℕ → (ℕ → Option E) → Option E
unfolding blocks_loop
wait_for_blocks_util max_blocks fn = blocks_loop fn max_blocks 0

-- `NodesInSync`, once every height has been read.
pub data SyncResult : Type 0 where
  in_sync : SyncResult
  not_in_sync : ℕ → ℕ → SyncResult
  sync_failed : ℕ → SyncResult

unfoldable pub compare_nodes : ℕ → List ℕ → SyncResult
compare_nodes chain_height [] = in_sync
compare_nodes chain_height (h ∷ hs) =
    if ltb h chain_height then not_in_sync h chain_height else compare_nodes chain_height hs

-- The heights of an errgroup's calls, or an error of one of them.
unfoldable pub read_nodes : List Answer → List ℕ ⊎ ℕ
read_nodes [] = inl []
read_nodes (failed e ∷ rest) = inr e
read_nodes (height h ∷ rest) = elim (read_nodes rest) [ inl hs ↦ inl (h ∷ hs) | inr e ↦ inr e ]

abbrev compare_read : ℕ → List ℕ ⊎ ℕ → SyncResult
compare_read chain_height (inl hs) = compare_nodes chain_height hs
compare_read chain_height (inr e) = sync_failed e

unfoldable pub nodes_in_sync : Answer → List Answer → SyncResult
unfolding compare_nodes read_nodes
nodes_in_sync (failed e) nodes = sync_failed e
nodes_in_sync (height c) nodes = compare_read c (read_nodes nodes)
