-- ===== src/Relayer.antt =====
-- The relayers: `DockerRelayer`, which runs the commands of a `RelayerCommander` in containers, and the
-- two relayers that build on it.
pub mod Types
pub mod Docker
pub mod Running
pub mod Rly
pub mod Hermes
