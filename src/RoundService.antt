-- ===== src/RoundService.antt =====
-- packages/round-service/src: the loop that runs rounds against a market, a chain and a store.
pub mod Ports
pub mod Loop
pub mod Picks
pub mod Driver
mod Tests
mod PicksTests
mod ProgressTests
