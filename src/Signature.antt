-- ===== src/Signature.antt =====
-- src/httpsignature.rs: RFC 9421 signatures, the draft-cavage form, and their verification.
pub mod Types
pub mod Parse
pub mod SignatureBase
pub mod Crypto
pub mod Verify
pub mod Components
pub mod Sign
pub mod RoundTrip
