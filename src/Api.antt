-- ===== src/Api.antt =====
-- The management API: internal/api/database and the handlers of internal/api/handlers over it.
pub mod Action
pub mod Rows
pub mod Database
pub mod Handlers
pub mod Backend
pub mod Pending
pub mod Integrity
pub mod Added
pub mod Isolated
