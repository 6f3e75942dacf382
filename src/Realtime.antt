-- ===== src/Realtime.antt =====
-- packages/realtime/src: numbered events, the receiver of a client and the hub of a server.
pub mod Envelope
pub mod Receiver
pub mod Hub
mod Tests
