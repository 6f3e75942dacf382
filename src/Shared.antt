-- ===== src/Shared.antt =====
-- packages/shared-types: the vocabulary that every package shares.
pub mod Money
pub mod Round
pub mod Cards
pub mod Genesis
pub mod Labels
pub mod Roster
mod Tests
