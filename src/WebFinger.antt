-- ===== src/WebFinger.antt =====
-- WebFinger: the answer of the domain service and the client that asks for it.
pub mod Server
pub mod Finger
pub mod Names
pub mod Resolved
