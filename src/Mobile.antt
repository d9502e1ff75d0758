-- ===== src/Mobile.antt =====
-- The offline-first client: mobile/src/sync and mobile/src/attachments.
mod Tests
pub mod Ports
pub mod Engine
pub mod Network
pub mod Background
pub mod Transport
pub mod Uploads
