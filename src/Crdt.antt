-- ===== src/Crdt.antt =====
-- The CRDT layer: mobile/src/crdt and backend/src/sync/sync-merge.ts.
mod Tests
pub mod Json
pub mod Clock
pub mod Register
pub mod Join
pub mod ElementSet
pub mod Record
