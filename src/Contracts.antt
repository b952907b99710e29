-- ===== src/Contracts.antt =====
-- contracts/contracts.go: the frozen sentinels and the interfaces of the two stores. The types that the
-- file repeats for siwx/ are modelled there.
pub mod Nonces
pub mod Identities
pub mod Fills
use siwx_go.Base.{Bytes, codes}

pub data Sentinel : Type 0 where
  malformed bad_signature expired not_yet_valid domain_mismatch nonce_mismatch : Sentinel
  unsupported_namespace : Sentinel

-- `Error()`
unfoldable pub error_text : Sentinel → Bytes
error_text malformed = codes "siwx: malformed message"
error_text bad_signature = codes "siwx: signature verification failed"
error_text expired = codes "siwx: message expired"
error_text not_yet_valid = codes "siwx: message not yet valid"
error_text domain_mismatch = codes "siwx: domain mismatch"
error_text nonce_mismatch = codes "siwx: nonce mismatch"
error_text unsupported_namespace = codes "siwx: unsupported namespace"
