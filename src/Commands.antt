-- ===== src/Commands.antt =====
-- The commands that domainservd takes from the broker (rabbitmq.rs).
pub mod Domains
pub mod Follows
pub mod Services
pub mod Keys
pub mod Persons
pub mod Notes
pub mod Messages
pub mod Rpc
pub mod Dispatch
pub mod Actors
pub mod Profiles
