-- ===== src/Siwx.antt =====
-- The package siwx and its adapter for Solana.
pub mod Errors
pub mod Caip
pub mod Observer
pub mod Verifier
pub mod Registry
pub mod Checks
pub mod Solana
pub mod Evm
