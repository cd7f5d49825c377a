-- ===== src/Tests.antt =====
-- The theorems at concrete inputs.
pub mod Ibc
mod Interchain
mod Linking
mod Testutil
mod ChainSpec
mod Mocktesting
mod Testreporter
mod Dockerutil
mod Relayer
mod Toml
mod Cosmos
mod ChainSet
