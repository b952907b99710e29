-- ===== src/Tests.antt =====
-- Runs of the definitions on small inputs.
mod Clock
mod Siws
mod Siwx
mod Hub
mod Recorder
mod Evm
mod Server
mod Middleware
mod Library
mod Routes
mod Session
mod Vectors
