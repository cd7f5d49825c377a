-- ===== src/Lib.antt =====
-- interchaintest starts networks of blockchains and the relayers between them in containers, so that
-- tests can exercise IBC. This library models the parts of it that decide something: what may be put
-- into a network, what a configuration becomes, what counts as a valid packet, how a transfer channel
-- is found, and how a test waits for blocks and for packets.
--
-- The parts, and the files that model them:
--
-- Ibc (ibc/types.go, ibc/packet.go, ibc/relayer.go) is the shared vocabulary. Ibc/Image has
-- DockerImage; Ibc/Config has ChainConfig with MergeChainSpecConfig, VerifyCoinType and
-- IsFullyConfigured; Ibc/Packet has packets and their Validate and Equal; Ibc/Channel has the options
-- of channels and clients; Ibc/Transfer has GetTransferChannel. The child of each states its laws.
--
-- Interchain (interchain.go) has the type Interchain, the Add methods, and in Interchain/Routes
-- relayerChains. A chain or a relayer is a reference, since Go compares interface values by identity;
-- what Config() reports of a chain is a parameter. A panic is a value. Interchain/WellFormed and
-- Interchain/Adding have the laws of the Add methods, Interchain/Wallets has generateRelayerWallets, and
-- Interchain/Linking has what Build calls of the relayers once the chains are up: a relayer's answer is
-- a parameter that may depend on the calls made before, and each function that Build starts for a link
-- runs on its own.
--
-- ChainSpec (chainspec.go) has Config: the checks, the two branches, and in ChainSpec/Versions the
-- switch on the chain type. A call takes the spec and the package's counter of suffixes and gives both
-- back, since Config changes them; where the configuration shares the spec's slice of images, a write
-- to it shows in the spec.
--
-- ChainSet (chainset.go) has Initialize, CreateCommonAccount and Start of a set of chains, as the calls
-- that they make; ChainSet/Order is about the order of the starts.
--
-- Testutil (testutil/poll_for_state.go, testutil/wait.go) has the pollers and the waits. What a chain
-- answers to the n-th question for its height is a parameter. The source's loops have no bound: here
-- they take fuel, and the theorems say how much is enough, counted in questions, on a chain that
-- answers and reaches the height that is waited for.
--
-- Testutil/Toml (testutil/toml.go) has the change of a decoded configuration, a tree whose sections are
-- of type Toml or plain maps, and of its file; Testutil/Toml/Laws, Testutil/Toml/Plain and
-- Testutil/Toml/Frame have its laws.
--
-- Cosmos (chain/cosmos/chain_node.go, sidecar.go, cosmos_chain.go and the module files) has the nodes
-- of a Cosmos chain. Cosmos/Commands has the command lines, Cosmos/Exec the commands that a node runs
-- with ExecTx, Cosmos/Files its configuration and genesis, Cosmos/Containers and Cosmos/Starting its
-- containers and sidecars, Cosmos/Modules the transactions of the modules, and Cosmos/Chain the start
-- of a chain: the goroutines of an errgroup run one after the other, and hooks of a configuration are
-- parameters. Cosmos/Initialize has the making of a chain's nodes, numbered in
-- Cosmos/Initialize/Numbering. Cosmos/Included is about ExecTx; Cosmos/Chain/Genesis, Launched, Kept
-- and SameGenesis are about Start, step by step. The record Packages holds what other packages compute
-- and what the nodes answer to clients; a wait for blocks that is not over after `patience` questions
-- is taken as one that never ends, so patience is any number.
--
-- Mocktesting (mocktesting/t.go) has the fake testing.T: a test is the calls that its body makes, exec
-- runs them, and simulate adds the deferred cleanups. The code that a body calls is a parameter.
--
-- Testreporter (testreporter/messages.go, testreporter/reporter.go) has the messages of a report, their
-- JSON form with UnmarshalJSON, and the reporter, whose channel is the list of the messages sent. Its
-- tests are those of Mocktesting.
--
-- Dockerutil (dockerutil/container_lifecycle.go, ports.go and strings.go) has the lifecycle of a
-- container, what is read of it when it is inspected, the listeners that hold the ports of its
-- bindings, and the names. The Docker client and the operating system are one parameter: what they
-- answer to a call, given the calls before it. The host is the calls made and the ports that the
-- process listens on.
--
-- Relayer (relayer/docker.go, relayer/options.go) is the relayer that runs in Docker, over the record of
-- a commander's methods (RelayerCommander): Relayer/Docker has the methods that run one command to its
-- end, Relayer/Running the process with its start and stop. Relayer/Rly
-- (relayer/rly/cosmos_relayer.go) is the commander of the Go relayer. Relayer/Hermes
-- (relayer/hermes/hermes_relayer.go) has the paths and the locks of the hermes relayer, for the calls of
-- one goroutine, Relayer/Hermes/Methods its methods, and Relayer/Hermes/Commander
-- (relayer/hermes/hermes_commander.go) its commander.
--
-- Dockerutil/Written says what the calls last wrote to a file of a volume.
--
-- Base/Actions has the methods on a state that these are written in: a call ends with a result, an
-- error, a panic, or a wait that nothing can end, and what it wrote before stays written. Base/Keeping
-- has what such a method keeps however it ends, and what holds where it returns a result.
--
-- Base has what these share: tests on numbers, equality as an interface, lists, maps as association
-- lists (one order of Go's ranges over a map), and texts. Tests applies the theorems to concrete
-- networks, specs, packets and chains.
--
-- Numbers are natural numbers where the source's are never negative; an int32 counter and a float64
-- are their bit patterns; an int that may be negative is an integer of two constructors. Code of
-- other packages is a parameter known by its verdicts: the identifier validators of ibc-go,
-- time.ParseDuration, encoding/json and go-toml. Nil slices and empty slices are told apart in a
-- packet's payload, which Equal compares with reflect.DeepEqual, and nowhere else.
--
-- Not modelled: times, contexts and logs; the rest of what talks to Docker; of Cosmos chains the
-- addition of full nodes, providers and consumers, wasm transactions and gRPC queries; the rest of
-- chain sets, the factories, the block database, the hyperspace relayer, the other chains, the local
-- server, and generated code.
pub mod Base
pub mod Dockerutil
pub mod Ibc
pub mod Relayer
pub mod Interchain
pub mod Testutil
pub mod Cosmos
pub mod ChainSpec
pub mod ChainSet
pub mod Mocktesting
pub mod Testreporter
pub mod Tests
