-- ===== src/Cosmos/Modules.antt =====
-- The transactions of the modules of a chain, as commands of a node.
pub mod Tx
pub mod Bank
pub mod Staking
pub mod Tokens
pub mod Grants
pub mod Gov
