-- ===== src/Testutil.antt =====
-- Package testutil: polling a chain for a packet, and waiting for blocks.
pub mod Poll
pub mod Acks
pub mod Wait
pub mod Toml
