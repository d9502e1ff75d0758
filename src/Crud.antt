-- ===== src/Crud.antt =====
-- The services of backend/src behind the HTTP controllers.
pub mod Answers
pub mod Tenant
pub mod Positions
pub mod Cards
pub mod Lists
pub mod Boards
pub mod Comments
pub mod Members
mod Tests
