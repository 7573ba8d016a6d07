-- ===== src/Outbox.antt =====
-- The outbox of domainservd/src/activitypub.rs: what an authenticated client posts (C2S).
pub mod Access
pub mod Entities
pub mod Activities
pub mod Client
pub mod Endpoints
pub mod Quiet
pub mod Completed
pub mod Prepared
pub mod Posted
pub mod Refused
