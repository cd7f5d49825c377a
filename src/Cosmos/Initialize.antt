-- ===== src/Cosmos/Initialize.antt =====
-- The nodes and the sidecars that a Cosmos chain is made of (chain/cosmos/cosmos_chain.go and
-- chain_node.go): `NewChainNode`, `NewSidecarProcess` and `initializeChainNodes`. The pull of the images
-- only logs its errors and is left out. The goroutines of an errgroup run one after the other.
pub mod Numbering
use interchaintest.Base.{
  ℕ, zero, suc, ◌-◌, String, Bool, true, false, List, [], ◌∷◌, ◌++◌, if◌then◌else◌, length, cat,
  nat_eq, string_eq,
}
use interchaintest.Base.Actions.{
  Ended, Action, done, fails, panics, blocks, ◌>>=◌, ◌>>◌, return, wrapping,
}
use interchaintest.Ibc.Image.{DockerImage, ref}
use interchaintest.Ibc.Config.{SidecarConfig, ChainConfig}
use interchaintest.Dockerutil.{create_volume, set_volume_owner, Host, Docker, ask, tell}
use interchaintest.Cosmos.Chain.{CosmosChain}
use interchaintest.Cosmos.{SidecarProcess, ChainNode, new_chain_node, new_sidecar}

-- The result of a group of calls that each make a value: all of them, or the first error.
abbrev pub gathered : {A : Type 0} → Ended A → Ended (List A) → Ended (List A)
gathered (done a) (done l) = done (a ∷ l)
gathered (done a) (fails e) = fails e
gathered (done a) panics = panics
gathered (done a) blocks = blocks
gathered (fails e) (done l) = fails e
gathered (fails e) (fails e') = fails e
gathered (fails e) panics = panics
gathered (fails e) blocks = blocks
gathered panics r = panics
gathered blocks r = blocks

-- A group with a call for each of `count` indices from `i` on.
unfoldable pub make_all : {A : Type 0} → (ℕ → Action Host A) → ℕ → ℕ → Action Host (List A)
make_all m i zero h = (done [], h)
make_all m i (suc count) h =
    let (r, t) = m i h in let (r', u) = make_all m (suc i) count t in (gathered r r', u)

-- `copy` into a slice of this length.
unfoldable pub copied : ℕ → List ChainNode → List ChainNode
copied zero ns = []
copied (suc n) [] = []
copied (suc n) (v ∷ ns) = v ∷ copied n ns

module _ (docker : Docker) (cfg : ChainConfig) (test_name : String) where
  -- A volume with its owner; `what` is the text of the error.
  unfoldable pub owned_volume : String → DockerImage → Action Host String
  unfolding ask ref
  owned_volume what image = do
    v ←
        wrapping (cat (cat "creating volume for " (cat what ": ")))
          (ask docker create_volume docker.text)
    wrapping (cat "set volume owner: ") (tell docker (set_volume_owner v (ref image) image.uid_gid))
    return v

  -- `NewSidecarProcess` of a node, or of the chain.
  unfoldable pub new_sidecar_process : Bool → ℕ → SidecarConfig → Action Host SidecarProcess
  unfolding owned_volume new_sidecar
  new_sidecar_process of_node index s = do
    v ← owned_volume "sidecar process" s.image
    return
        (record (new_sidecar cfg of_node s.pre_start s.process_name test_name s.image s.home_dir
          index s.ports s.start_cmd s.env) { volume_name = v })

  -- The sidecars of a node, up to the first error.
  unfoldable pub node_sidecars : ℕ → List SidecarConfig → Action Host (List SidecarProcess)
  unfolding new_sidecar_process
  node_sidecars index [] h = (done [], h)
  node_sidecars index (s ∷ rest) h =
      let more = node_sidecars index rest in
      (if s.validator_process
          then (do p ← new_sidecar_process true index s; ps ← more; return (p ∷ ps))
          else more)
        h

  -- `(*CosmosChain).NewChainNode`
  unfoldable pub make_node : DockerImage → Bool → ℕ → Action Host ChainNode
  unfolding owned_volume new_chain_node node_sidecars
  make_node image validator index = do
    v ← owned_volume "chain node" image
    ps ← node_sidecars index cfg.sidecar_configs
    return (record (new_chain_node cfg validator test_name image index) {
      volume_name = v;
      sidecars = ps;
    })

  -- The nodes that are set once both groups are done.
  abbrev pub settled :
      CosmosChain → ℕ → ℕ → Ended (List ChainNode) → Ended (List ChainNode) → Ended CosmosChain
  settled c v f (done vs) (done fs) = done (record c {
    validators = copied v c.validators ++ vs;
    full_nodes = copied f c.full_nodes ++ fs;
  })
  settled c v f (done vs) (fails e) = fails e
  settled c v f (done vs) panics = panics
  settled c v f (done vs) blocks = blocks
  settled c v f (fails e) (done fs) = fails e
  settled c v f (fails e) (fails e') = fails e
  settled c v f (fails e) panics = panics
  settled c v f (fails e) blocks = blocks
  settled c v f panics r = panics
  settled c v f blocks r = blocks

  -- `initializeChainNodes`, to these numbers of validators and full nodes, with the chain's first image.
  unfoldable pub initialize_chain_nodes :
      DockerImage → ℕ → ℕ → CosmosChain → Ended CosmosChain × Host
  unfolding make_all make_node copied
  initialize_chain_nodes image num_validators num_full_nodes c =
      let vals = length c.validators in
      let fulls = length c.full_nodes in
      let (r, h) = make_all (make_node image true) vals (num_validators - vals) c.host in
      let (r', h') = make_all (make_node image false) fulls (num_full_nodes - fulls) h in
      (settled c num_validators num_full_nodes r r', h')
