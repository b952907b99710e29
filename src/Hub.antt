-- ===== src/Hub.antt =====
-- The example server in examples/hub.
pub mod Nonces
pub mod Identities
pub mod Recorder
pub mod ContractWallet
pub mod Problems
pub mod Issuer
pub mod Handlers
pub mod Metrics
pub mod Server
pub mod Config
