-- ===== src/Commands/Actors.antt =====
-- The actors of the database: each is named after its id, and no two have the same id.
pub mod Stored
pub mod Keeping
pub mod Written
pub mod Persons
pub mod Posted
pub mod Hosted
pub mod Dispatched
pub mod Removed
pub mod Icons
