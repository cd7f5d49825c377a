-- ===== src/Ibc.antt =====
-- The shared vocabulary of the program: chain configurations, packets, and what a relayer is asked.
pub mod Image
pub mod Config
pub mod Packet
pub mod Channel
pub mod Transfer
