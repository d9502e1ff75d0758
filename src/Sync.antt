-- ===== src/Sync.antt =====
-- Offline-first synchronisation: backend/src/sync and mobile/src/sync.
mod Tests
pub mod Merge
pub mod Visibility
pub mod Store
pub mod Requests
pub mod Strategies
pub mod Service
pub mod Tables
