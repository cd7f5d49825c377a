-- ===== src/Testutil/Wait/Laws.antt =====
-- When nodes are in sync, and what waiting for a condition on blocks returns.
use native.Mathlib.Decide.{ℕ_discrete}
use native.Mathlib.Nat.{add-zero}
use interchaintest.Base.{
  ℕ, zero, suc, ◌+◌, ◌≤◌, ◌<◌, ◌≡◌, refl, sym, ◌≢◌, ◌↔◌, inl, inr, Option, none, some, List, [],
  ◌∷◌, arith, Option-cases, All, subst, nat_eq,
}
use interchaintest.Testutil.Wait.{
  Answer, height, failed, in_sync, compare_nodes, read_nodes, compare_read, nodes_in_sync,
  blocks_loop, wait_for_blocks_util,
}

abbrev pub IsAtLeast : ℕ → Answer → Type 0
IsAtLeast c (height h) = c ≤ h
IsAtLeast c (failed e) = ⊥

compare_nodes_iff : (c : ℕ) (hs : List ℕ) → (compare_nodes c hs ≡ in_sync) ↔ All (λ h. c ≤ h) hs
unfolding compare_nodes
compare_nodes_iff c [] = ground arith
compare_nodes_iff c (h ∷ hs) = ground (arith, compare_nodes_iff c hs)

nodes_iff :
    (c : ℕ) (nodes : List Answer)
    → (compare_read c (read_nodes nodes) ≡ in_sync) ↔ All (IsAtLeast c) nodes
unfolding read_nodes compare_nodes
nodes_iff c [] = ground arith
nodes_iff c (failed e ∷ nodes) = ground arith
nodes_iff c (height h ∷ nodes) = ground (arith, nodes_iff c nodes)

height-injective : {a b : ℕ} → height a ≡ height b → a ≡ b
height-injective h = cc

-- The nodes are reported in sync exactly when the chain and every node answer, and no node is below
-- the chain.
pub nodes_in_sync_iff :
    (chain : Answer) (nodes : List Answer)
    → (nodes_in_sync chain nodes ≡ in_sync)
      ↔ ((c : ℕ) × (chain ≡ height c) × All (IsAtLeast c) nodes)
unfolding nodes_in_sync
nodes_in_sync_iff (failed e) nodes = ground arith
nodes_in_sync_iff (height c) nodes = (
  λ h. (c, refl, (nodes_iff c nodes).0 h),
  λ (d, e, h).
      (nodes_iff c nodes).1 (subst (λ a. All (IsAtLeast a) nodes) (height-injective (sym e)) h),
)

module _ {E : Type 0} (fn : ℕ → Option E) where
  blocks_loop-some :
      (rest i : ℕ) (e : E)
      → blocks_loop fn (suc rest) i ≡ some e
      → (fn (i + rest) ≡ some e) × ((j : ℕ) → i ≤ j → j < i + suc rest → fn j ≢ none)
  unfolding blocks_loop
  blocks_loop-some zero i e h =
      (rw add-zero (ground arith), λ j a b. let q : j ≡ i = omega arith in rw q (ground arith))
  blocks_loop-some (suc rest) i e h = elim (Option-cases (fn i)) [
    | inl p ↦ absurd (ground arith)
    | inr (x, p) ↦
        let (last, all) = blocks_loop-some rest (suc i) e (ground arith) in
        let shift : suc i + rest ≡ i + suc rest = omega arith in
        (
          rw shift at last,
          λ j a b. elim (ℕ_discrete i j) [
            | yes q ↦ rw (← q) (ground arith)
            | no q ↦ all j (omega arith) (omega arith)
          ],
        )
  ]

  blocks_loop-none :
      (rest i j : ℕ) → i ≤ j → j < i + rest → fn j ≡ none → blocks_loop fn rest i ≡ none
  unfolding blocks_loop
  blocks_loop-none zero i j a b h = absurd (omega arith)
  blocks_loop-none (suc rest) i j a b h = ground (arith, blocks_loop-none rest (suc i) j)

  blocks_loop-last :
      (rest i : ℕ) (e : E)
      → fn (i + rest) ≡ some e
      → ((j : ℕ) → i ≤ j → j < i + suc rest → fn j ≢ none)
      → blocks_loop fn (suc rest) i ≡ some e
  unfolding blocks_loop
  blocks_loop-last zero i e q all = let p : fn i ≡ some e = rw add-zero at q in ground arith
  blocks_loop-last (suc rest) i e q all = elim (Option-cases (fn i)) [
    | inl p ↦ absurd (all i (omega arith) (omega arith) p)
    | inr (x, p) ↦
        let shift : i + suc rest ≡ suc i + rest = omega arith in
        let later =
          blocks_loop-last rest (suc i) e (rw shift at q)
            (λ j a b. all j (omega arith) (omega arith)) in
        ground arith
  ]

  -- `fn` is called at the indices below the number of blocks. An error comes back exactly when there
  -- were blocks, no call returned nil, and it is the error of the last call; with no blocks, or with
  -- one call that returned nil, the result is nil.
  pub wait_for_blocks_util_lem :
      (max_blocks : ℕ)
      → ((e : E)
          → (wait_for_blocks_util max_blocks fn ≡ some e) ↔ (
              (n : ℕ) × (max_blocks ≡ suc n)
              × (fn n ≡ some e)
              × ((j : ℕ) → j < max_blocks → fn j ≢ none)))
        × ((j : ℕ) → j < max_blocks → fn j ≡ none → wait_for_blocks_util max_blocks fn ≡ none)
        × (max_blocks ≡ 0 → wait_for_blocks_util max_blocks fn ≡ none)
  unfolding wait_for_blocks_util
  wait_for_blocks_util_lem zero =
      (λ e. (λ h. cc, λ (n, q, a, b). absurd (omega arith)), λ j b h. refl, λ z. refl)
  wait_for_blocks_util_lem (suc n) = (
    λ e. (
      λ h.
          let (last, all) = blocks_loop-some n 0 e h in
          let z : 0 + n ≡ n = omega arith in
          (n, refl, rw z at last, λ j b. all j (omega arith) (omega arith)),
      λ (m, q, last, all).
          let z : m ≡ 0 + n = omega arith in
          blocks_loop-last n 0 e (rw z at last) (λ j a b. all j (omega arith)),
    ),
    λ j b h. blocks_loop-none (suc n) 0 j (omega arith) (omega arith) h,
    λ z. absurd (omega arith),
  )
