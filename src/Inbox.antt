-- ===== src/Inbox.antt =====
-- The inbox of domainservd, by its parts.
pub mod Types
pub mod Documents
pub mod Handlers
pub mod Post
pub mod Rows
