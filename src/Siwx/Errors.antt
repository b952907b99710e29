-- ===== src/Siwx/Errors.antt =====
-- siwx/errors.go, with the errors and outcomes that the package passes on.
use siwx_go.Base.{ℕ, List, [], ◌∷◌, Bytes, codes, Bool, false, ◌||◌, ◌==◌}

pub data Sentinel : Type 0 where
  malformed bad_signature expired not_yet_valid domain_mismatch nonce_mismatch : Sentinel
  unsupported_namespace contract_validation_failed contract_wallet_unsupported rpc : Sentinel

-- An error, by the sentinels that `errors.Is` finds in it.
abbrev pub Error : Type 0
Error = List Sentinel

-- Sentinels are compared as pointers: each has its own address.
abbrev pub address : Sentinel → ℕ
address Sentinel.malformed = 0
address Sentinel.bad_signature = 1
address Sentinel.expired = 2
address Sentinel.not_yet_valid = 3
address Sentinel.domain_mismatch = 4
address Sentinel.nonce_mismatch = 5
address Sentinel.unsupported_namespace = 6
address Sentinel.contract_validation_failed = 7
address Sentinel.contract_wallet_unsupported = 8
address Sentinel.rpc = 9

-- `Error()` of a sentinel.
unfoldable pub error_text : Sentinel → Bytes
error_text Sentinel.malformed = codes "siwx: malformed message"
error_text Sentinel.bad_signature = codes "siwx: signature verification failed"
error_text Sentinel.expired = codes "siwx: message expired"
error_text Sentinel.not_yet_valid = codes "siwx: message not yet valid"
error_text Sentinel.domain_mismatch = codes "siwx: domain mismatch"
error_text Sentinel.nonce_mismatch = codes "siwx: nonce mismatch"
error_text Sentinel.unsupported_namespace = codes "siwx: unsupported namespace"
error_text Sentinel.contract_validation_failed = codes "siwx: contract signature validation failed"
error_text Sentinel.contract_wallet_unsupported =
    codes "siwx: contract wallet signature unsupported (no chain client configured)"
error_text Sentinel.rpc = codes "siwx: rpc call failed"

-- `errors.Is`
unfoldable pub is : Error → Sentinel → Bool
is [] s = false
is (t ∷ e) s = address t == address s || is e s

-- What a call comes to: a value, an error, or a run-time panic.
pub data Outcome {ℓ} (A : Type ℓ) : Type ℓ where
  returned : A → Outcome A
  failed : Error → Outcome A
  crashed : Outcome A
