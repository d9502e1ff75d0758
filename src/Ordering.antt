-- ===== src/Ordering.antt =====
-- Fractional position keys: backend/src/common/ordering.
pub mod Failure
pub mod Indexer
pub mod Rebalance
pub mod Collisions
pub mod Position
pub mod Columns
mod Tests
