-- ===== src/BattleMath.antt =====
-- packages/battle-math: the deterministic core of a battle.
pub mod Scale
pub mod Scoring
pub mod Resolution
pub mod Momentum
pub mod Prng
pub mod Matchmaking
pub mod Scheduler
pub mod Confidence
pub mod Genesis
mod Tests
mod GenesisTests
