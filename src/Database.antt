-- ===== src/Database.antt =====
-- The database of src/database.rs: the documents, the collections as the driver sees them, and the
-- operations of `DatabaseManager`. MongoDB's driver is a parameter: a `Driver` for each collection.
pub mod Documents
pub mod Driver
pub mod Manager
pub mod Deletion
pub mod Collections
pub mod Removed
pub mod Rows
