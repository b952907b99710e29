-- ===== src/Siws.antt =====
-- Package `siws` (siws/*.go): Sign-In With Solana messages and their verification.
pub mod Errors
pub mod Base58
pub mod Message
pub mod Fields
pub mod Trailer
pub mod Parse
pub mod Verify
pub mod Grammar
