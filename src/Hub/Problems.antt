-- ===== src/Hub/Problems.antt =====
-- examples/hub/problems.go.
pub mod Statuses
use siwx_go.Base.{ℕ, Bytes, codes, Bool, true, false, if◌then◌else◌}
use siwx_go.Siwx.Errors.{Sentinel, Error, is}

-- `problem`
pub record Problem : Type 0 where
  pub type_uri : Bytes
  pub title : Bytes
  pub status : ℕ
  pub detail : Bytes
  pub instance_id : Bytes

-- `problemForErr`, with the instance still empty.
unfoldable pub problem_for_err : Error → Problem
unfolding is
problem_for_err e =
    if is e Sentinel.malformed
    then record {
      type_uri = codes "/problems/malformed-message";
      title = codes "Malformed message";
      status = 400;
      detail = codes "The sign-in message could not be parsed.";
      instance_id = codes "";
    }
    else if is e Sentinel.domain_mismatch
    then record {
      type_uri = codes "/problems/domain-mismatch";
      title = codes "Domain mismatch";
      status = 401;
      detail = codes "The domain in the sign-in message does not match this server.";
      instance_id = codes "";
    }
    else if is e Sentinel.nonce_mismatch
    then record {
      type_uri = codes "/problems/nonce-check-failed";
      title = codes "Nonce check failed";
      status = 401;
      detail = codes "The nonce is invalid, expired, or already used.";
      instance_id = codes "";
    }
    else if is e Sentinel.expired
    then record {
      type_uri = codes "/problems/message-expired";
      title = codes "Message expired";
      status = 401;
      detail = codes "The sign-in message has expired.";
      instance_id = codes "";
    }
    else if is e Sentinel.not_yet_valid
    then record {
      type_uri = codes "/problems/not-yet-valid";
      title = codes "Not yet valid";
      status = 401;
      detail = codes "The sign-in message is not yet valid.";
      instance_id = codes "";
    }
    else if is e Sentinel.bad_signature
    then record {
      type_uri = codes "/problems/signature-invalid";
      title = codes "Signature invalid";
      status = 401;
      detail = codes "The wallet signature could not be verified.";
      instance_id = codes "";
    }
    else if is e Sentinel.unsupported_namespace
    then record {
      type_uri = codes "/problems/unsupported-namespace";
      title = codes "Unsupported namespace";
      status = 422;
      detail = codes "The requested chain namespace is not supported.";
      instance_id = codes "";
    }
    else record {
      type_uri = codes "/problems/internal-error";
      title = codes "Internal server error";
      status = 500;
      detail = codes "An unexpected error occurred.";
      instance_id = codes "";
    }

-- What `writeProblem` writes.
unfoldable pub written_problem : Error → Bytes → Problem
unfolding problem_for_err
written_problem e request_id = record (problem_for_err e) { instance_id = request_id }
