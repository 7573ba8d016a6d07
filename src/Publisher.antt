-- ===== src/Publisher.antt =====
-- crates/publisherd/src/main.rs: recipients, delivery with retries, and the answer to the broker.
pub mod Recipients
pub mod Retry
pub mod Worker
