-- ===== src/Genesis.antt =====
-- packages/genesis-service/src: a Genesis claim, from the request of a wallet to its card.
pub mod Requests
pub mod Store
pub mod Flow
mod Tests
