-- ===== src/Hub/Problems/Statuses.antt =====
-- examples/hub/problems.go: the statuses, by the sentinels of the error.
use siwx_go.Base.{ℕ, Bytes, Bool, true, false, if◌then◌else◌, ◌||◌, ◌≡◌, ◌≢◌, ◌↔◌, arith}
use siwx_go.Hub.Problems.{problem_for_err, written_problem}
use siwx_go.Siwx.Errors.{Sentinel, Error, is}

-- The sentinels of a sign-in that does not hold.
abbrev pub is_unauthorized : Error → Bool
is_unauthorized e =
    is e Sentinel.domain_mismatch
    || is e Sentinel.nonce_mismatch
    || is e Sentinel.expired
    || is e Sentinel.not_yet_valid
    || is e Sentinel.bad_signature

-- The status, by the kind of the error.
abbrev pub status_of : Error → ℕ
status_of e =
    if is e Sentinel.malformed
    then 400
    else if is_unauthorized e
    then 401
    else if is e Sentinel.unsupported_namespace
    then 422
    else 500

pub written_problem-status_of :
    (e : Error) (id : Bytes) → (written_problem e id).status ≡ status_of e
unfolding written_problem problem_for_err
written_problem-status_of e id = ground arith

-- A problem is written with the status 400 exactly if the error is of `ErrMalformed`, and with the
-- status 500 exactly if it is of none of the seven sentinels that the switch names: so an error of
-- `ErrRPC`, `ErrContractValidationFailed` or `ErrContractWalletUnsupported` alone is an internal
-- error.
pub written_problem-status :
    (e : Error) (id : Bytes)
    → (((written_problem e id).status ≡ 400) ↔ (is e Sentinel.malformed ≡ true))
      × (((written_problem e id).status ≡ 500) ↔ (
          (is e Sentinel.malformed || is_unauthorized e || is e Sentinel.unsupported_namespace)
          ≡ false))
written_problem-status e id = rw (written_problem-status_of e id) (ground arith)

pub written_problem-not_200 : (e : Error) (id : Bytes) → (written_problem e id).status ≢ 200
written_problem-not_200 e id = rw (written_problem-status_of e id) (ground arith)
