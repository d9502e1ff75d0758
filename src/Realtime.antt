-- ===== src/Realtime.antt =====
-- The live connection of the web client to a board: frontend/src/realtime.
mod Tests
pub mod Socket
pub mod Outbox
pub mod Redis
pub mod Gateway
