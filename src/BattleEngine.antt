-- ===== src/BattleEngine.antt =====
-- packages/battle-engine/src: the state machines of a battle and of its round.
pub mod Evidence
pub mod Battle
pub mod Finalize
pub mod Reachable
pub mod Rounds
pub mod Driver
pub mod Tests
pub mod CreationTests
