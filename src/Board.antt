-- ===== src/Board.antt =====
-- The board of the web client: frontend/src/store and the frames of frontend/src/realtime.
mod Tests
pub mod State
pub mod Remote
pub mod Store
pub mod Create
pub mod Steps
pub mod Snapshot
pub mod Ordered
pub mod Places
pub mod Transfers
pub mod Rollback
pub mod Invariant
