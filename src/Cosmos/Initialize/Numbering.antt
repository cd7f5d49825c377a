-- ===== src/Cosmos/Initialize/Numbering.antt =====
-- How the nodes of a chain are numbered when more are added.
use interchaintest.Base.{
  ℕ, zero, suc, ◌+◌, ◌-◌, ◌≤◌, String, ◌≡◌, refl, sym, ap, Bool, true, false, List, [], ◌∷◌, ◌++◌,
  arith, length, length-append, subst, nat_eq, string_eq,
}
use interchaintest.Base.Actions.{Ended, Action, done, fails, panics, blocks}
use interchaintest.Base.Keeping.{Delivers, continue-Delivers, result_of}
use interchaintest.Ibc.Image.{DockerImage}
use interchaintest.Ibc.Config.{ChainConfig}
use interchaintest.Dockerutil.{Host, Docker}
use interchaintest.Cosmos.{ChainNode, new_chain_node}
use interchaintest.Cosmos.Chain.{CosmosChain}
use interchaintest.Cosmos.Initialize.{
  gathered, make_all, copied, owned_volume, node_sidecars, make_node, settled,
  initialize_chain_nodes,
}

-- The nodes have consecutive indices from `i` on.
abbrev pub IsIndexed : ℕ → List ChainNode → Type 0
IsIndexed i [] = Unit
IsIndexed i (n ∷ ns) = (n.index ≡ i) × IsIndexed (suc i) ns

-- The nodes have the indices below their number, which is `count`.
abbrev pub IsNumbered : ℕ → List ChainNode → Type 0
IsNumbered count ns = IsIndexed 0 ns × (length ns ≡ count)

abbrev pub IsWellNumbered : ℕ → ℕ → CosmosChain → Type 0
IsWellNumbered v f c = IsNumbered v c.validators × IsNumbered f c.full_nodes

unit-Delivers : {S A : Type 0} (x : Ended A × S) → Delivers (λ (a : A) (s : S). Unit {0}) x
unit-Delivers (done a, s) = tt
unit-Delivers (fails e, s) = tt
unit-Delivers (panics, s) = tt
unit-Delivers (blocks, s) = tt

append-IsIndexed :
    (i : ℕ) (ms ns : List ChainNode)
    → IsIndexed i ms
    → IsIndexed (i + length ms) ns
    → IsIndexed i (ms ++ ns)
append-IsIndexed i [] ns p q = subst (λ k. IsIndexed k ns) (omega arith) q
append-IsIndexed i (m ∷ ms) ns (e, p) q =
    (e, append-IsIndexed (suc i) ms ns p (subst (λ k. IsIndexed k ns) (omega arith) q))

copied_all : (n : ℕ) (ns : List ChainNode) → length ns ≤ n → copied n ns ≡ ns
unfolding copied
copied_all zero [] h = refl
copied_all zero (m ∷ ns) h = absurd (omega arith)
copied_all (suc n) [] h = refl
copied_all (suc n) (m ∷ ns) h = ap (λ l. m ∷ l) (copied_all n ns (omega arith))

-- A group that makes a node of each index.
make_all-IsIndexed :
    (m : ℕ → Action Host ChainNode)
    → ((i : ℕ) (h : Host) → Delivers (λ (n : ChainNode) (t : Host). n.index ≡ i) (m i h))
    → (i count : ℕ) (h : Host)
    → Delivers
        (λ (ns : List ChainNode) (t : Host). IsIndexed i ns × (length ns ≡ count))
        (make_all m i count h)
unfolding make_all
make_all-IsIndexed m d i zero h = (tt, refl)
make_all-IsIndexed m d i (suc count) h =
    both_made (m i h).0 (make_all m (suc i) count (m i h).1).0 (m i h).1
      (make_all m (suc i) count (m i h).1).1 (d i h)
      (make_all-IsIndexed m d (suc i) count (m i h).1)
  where
    both_made :
        (r : Ended ChainNode) (r' : Ended (List ChainNode)) (t u : Host)
        → Delivers (λ (n : ChainNode) (t : Host). n.index ≡ i) (r, t)
        → Delivers
            (λ (ns : List ChainNode) (t : Host). IsIndexed (suc i) ns × (length ns ≡ count))
            (r', u)
        → Delivers
            (λ (ns : List ChainNode) (t : Host). IsIndexed i ns × (length ns ≡ suc count))
            (gathered r r', u)
    both_made (done n) (done ns) t u e (p, l) = ((e, p), omega arith)
    both_made (done n) (fails x) t u e p = tt
    both_made (done n) panics t u e p = tt
    both_made (done n) blocks t u e p = tt
    both_made (fails x) (done ns) t u e p = tt
    both_made (fails x) (fails y) t u e p = tt
    both_made (fails x) panics t u e p = tt
    both_made (fails x) blocks t u e p = tt
    both_made panics r' t u e p = tt
    both_made blocks r' t u e p = tt

-- More nodes behind those that there are.
grown :
    (old new : ℕ) (ms ns : List ChainNode)
    → IsNumbered old ms
    → old ≤ new
    → IsIndexed (length ms) ns × (length ns ≡ new - length ms)
    → IsNumbered new (copied new ms ++ ns)
grown old new ms ns (p, l) h (q, k) =
    let short : length ms ≤ new = omega arith in
    subst (λ us. IsNumbered new (us ++ ns)) (sym (copied_all new ms short))
      (
        append-IsIndexed 0 ms ns p (subst (λ i. IsIndexed i ns) (omega arith) q),
        omega (arith, length-append ms ns),
      )

module _ (docker : Docker) (cfg : ChainConfig) (test_name : String) where
  make_node-index :
      (image : DockerImage) (b : Bool) (i : ℕ) (h : Host)
      → Delivers
          (λ (n : ChainNode) (t : Host). n.index ≡ i)
          (make_node docker cfg test_name image b i h)
  unfolding make_node new_chain_node
  make_node-index image b i h =
      let P = λ (n : ChainNode) (t : Host). n.index ≡ i in
      continue-Delivers P (λ a s. Unit {0}) (owned_volume docker cfg test_name "chain node" image h)
        _ (unit-Delivers _)
        (λ v s _.
          continue-Delivers P (λ a s. Unit {0})
            (node_sidecars docker cfg test_name i cfg.sidecar_configs s) _ (unit-Delivers _)
            (λ ps t _. refl))

  -- A chain whose validators and full nodes have the indices below their numbers is given more of
  -- both, up to numbers that are no smaller, if there is no error: then both have these numbers of
  -- nodes and again the indices below them.
  pub initialize_chain_nodes-IsWellNumbered :
      (image : DockerImage) (v f num_validators num_full_nodes : ℕ) (c c' : CosmosChain)
      → IsWellNumbered v f c
      → v ≤ num_validators
      → f ≤ num_full_nodes
      → (initialize_chain_nodes docker cfg test_name image num_validators num_full_nodes c).0
        ≡ done c'
      → IsWellNumbered num_validators num_full_nodes c'
  unfolding initialize_chain_nodes
  initialize_chain_nodes-IsWellNumbered image v f nv nf c c' (p, q) a b e =
      let vals = length c.validators in
      let fulls = length c.full_nodes in
      let first = make_all (make_node docker cfg test_name image true) vals (nv - vals) c.host in
      let second =
        make_all (make_node docker cfg test_name image false) fulls (nf - fulls) first.1 in
      settle first.0 second.0 first.1 second.1
        (make_all-IsIndexed (make_node docker cfg test_name image true) (make_node-index image true)
          vals (nv - vals) c.host)
        (make_all-IsIndexed (make_node docker cfg test_name image false)
          (make_node-index image false) fulls (nf - fulls) first.1)
        e
    where
      settle :
          (r r' : Ended (List ChainNode)) (t u : Host)
          → Delivers
              (λ (ns : List ChainNode) (t : Host).
                IsIndexed (length c.validators) ns × (length ns ≡ nv - length c.validators))
              (r, t)
          → Delivers
              (λ (ns : List ChainNode) (t : Host).
                IsIndexed (length c.full_nodes) ns × (length ns ≡ nf - length c.full_nodes))
              (r', u)
          → settled docker cfg test_name c nv nf r r' ≡ done c'
          → IsWellNumbered nv nf c'
      settle (done vs) (done fs) t u k l e =
          subst (IsWellNumbered nv nf) (result_of e)
            (grown v nv c.validators vs p a k, grown f nf c.full_nodes fs q b l)
      settle (done vs) (fails x) t u k l e = absurd (cc)
      settle (done vs) panics t u k l e = absurd (cc)
      settle (done vs) blocks t u k l e = absurd (cc)
      settle (fails x) (done fs) t u k l e = absurd (cc)
      settle (fails x) (fails y) t u k l e = absurd (cc)
      settle (fails x) panics t u k l e = absurd (cc)
      settle (fails x) blocks t u k l e = absurd (cc)
      settle panics r' t u k l e = absurd (cc)
      settle blocks r' t u k l e = absurd (cc)
