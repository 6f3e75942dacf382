-- ===== src/Rewards.antt =====
-- packages/rewards-math: who is paid what in a distribution window, and the tree that proves it.
pub mod Allocation
pub mod Merkle
mod Tests
