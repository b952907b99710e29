-- ===== src/Siwx/Solana.antt =====
-- siwx/solana/adapter.go. It reads the clock three times: for `not_before`, for `expiry`, and within
-- `siws.VerifyRaw`.
pub mod Errors
pub mod Checks
pub mod Accepts
pub mod Laws
pub mod Refines
use siwx_go.Base.{
  ℕ, List, [], ◌∷◌, ◌++◌, Bytes, codes, Bool, true, false, not, ◌||◌, ◌==◌, Option, none, some,
  if◌then◌else◌, equal, length,
}
use siwx_go.Go.Time.{TimeLib}
use siwx_go.Siws.Errors as SiwsErrors
use siwx_go.Siws.Errors.{Reason, sentinel, Result, ok, err, panicked}
use siwx_go.Siws.Message.{Message}
use siwx_go.Siws.Parse.{parse_message}
use siwx_go.Siws.Verify as SiwsVerify
use siwx_go.Siws.Verify.{is_early, is_late, verify_raw}
use siwx_go.Siwx.Checks.{conclude, read_clock}
use siwx_go.Siwx.Errors.{Sentinel, Error, Outcome, returned, failed, crashed}
use siwx_go.Siwx.Observer.{CheckName, Event, parse_result, check_result}
use siwx_go.Siwx.Verifier.{
  Clock, ObserverField, VerifyOpts, Identity, Run, ◌then_do◌, finish, emit, Verifier,
}

abbrev address_of : SiwsErrors.Sentinel → ℕ
address_of SiwsErrors.Sentinel.malformed = 0
address_of SiwsErrors.Sentinel.bad_signature = 1
address_of SiwsErrors.Sentinel.expired = 2
address_of SiwsErrors.Sentinel.not_yet_valid = 3
address_of SiwsErrors.Sentinel.domain_mismatch = 4
address_of SiwsErrors.Sentinel.nonce_mismatch = 5

-- An entry of the map that `mapErr` ranges over.
abbrev pub Entry : Type 0
Entry = SiwsErrors.Sentinel × Sentinel

-- The map literal.
abbrev pub entries : List Entry
entries =
    (SiwsErrors.Sentinel.malformed, Sentinel.malformed)
    ∷ (SiwsErrors.Sentinel.bad_signature, Sentinel.bad_signature)
    ∷ (SiwsErrors.Sentinel.expired, Sentinel.expired)
    ∷ (SiwsErrors.Sentinel.not_yet_valid, Sentinel.not_yet_valid)
    ∷ (SiwsErrors.Sentinel.domain_mismatch, Sentinel.domain_mismatch)
    ∷ (SiwsErrors.Sentinel.nonce_mismatch, Sentinel.nonce_mismatch)
    ∷ []

-- `mapErr` on an error that is not `nil`. Go ranges over a map in any order: `order` is the order of
-- this run. The last line wraps `ErrMalformed` and the error itself, which is no sentinel of siwx.
unfoldable pub map_err : List Entry → Reason → Error
map_err [] r = Sentinel.malformed ∷ []
map_err ((from, to) ∷ order) r =
    if address_of (sentinel r) == address_of from then to ∷ [] else map_err order r

-- What the four functions of `checks` return: no error, or a sentinel.
unfoldable pub domain_error : Message → VerifyOpts → Option Error
domain_error m opts =
    if equal opts.expected_domain [] || not (equal m.domain opts.expected_domain)
    then some (Sentinel.domain_mismatch ∷ [])
    else none

unfoldable pub not_before_error : Message → ℕ → Option Error
unfolding is_early
not_before_error m now =
    if is_early m.not_before now then some (Sentinel.not_yet_valid ∷ []) else none

unfoldable pub expiry_error : Message → ℕ → Option Error
unfolding is_late
expiry_error m now = if is_late m.expiration_time now then some (Sentinel.expired ∷ []) else none

unfoldable pub nonce_error : Message → VerifyOpts → Option Error
nonce_error m opts =
    if not (equal m.nonce opts.expected_nonce) then some (Sentinel.nonce_mismatch ∷ []) else none

abbrev pub identity_of : Message → Identity
identity_of m = record {
  account = record {
    chain_id = record { namespace = codes "solana"; reference = m.chain_id };
    address = m.address;
  };
  domain = m.domain;
  nonce = m.nonce;
  issued_at = m.issued_at;
  expires_at = m.expiration_time;
}

-- The options that `VerifyRaw` gets, where its call of `Now` gives `t`.
abbrev pub raw_opts : VerifyOpts → ℕ → SiwsVerify.VerifyOpts
raw_opts opts t = record {
  expected_domain = opts.expected_domain;
  expected_nonce = opts.expected_nonce;
  now = some t;
}

module _ (ed25519_verify : Bytes → Bytes → Bytes → Bool) (lib : TimeLib) (order : List Entry) where
  -- From the signature check on.
  unfoldable pub conclude_signature : Message → VerifyOpts → Result Message → Run Identity
  unfolding emit map_err
  conclude_signature m opts (ok _) =
      emit opts.observer (check_result opts.attempt_id CheckName.signature true) then_do λ _.
      finish (returned (identity_of m))
  conclude_signature m opts (err r) =
      emit opts.observer (check_result opts.attempt_id CheckName.signature false) then_do λ _.
      finish (failed (map_err order r))
  conclude_signature m opts panicked = finish crashed

  -- The loop over `checks`, and the signature.
  unfoldable pub run_checks : Message → Bytes → Bytes → VerifyOpts → Run Identity
  unfolding conclude conclude_signature read_clock
  run_checks m msg sig opts = conclude opts CheckName.domain (domain_error m opts) then_do λ _.
      read_clock opts.clock 0 then_do λ t0.
      conclude opts CheckName.not_before (not_before_error m t0) then_do λ _.
      read_clock opts.clock 1 then_do λ t1.
      conclude opts CheckName.expiry (expiry_error m t1) then_do λ _.
      conclude opts CheckName.nonce (nonce_error m opts) then_do λ _.
      read_clock opts.clock 2 then_do λ t2.
      conclude_signature m opts (verify_raw ed25519_verify lib msg sig (raw_opts opts t2) t2)

  -- `func (a adapter) Verify`
  unfoldable pub verify : Bytes → Bytes → VerifyOpts → Run Identity
  unfolding emit map_err run_checks
  verify msg sig opts = elim (parse_message lib msg) [
    | ok m ↦ emit opts.observer (parse_result opts.attempt_id true none (length msg)) then_do λ _.
        run_checks m msg sig opts
    | err r ↦
        emit opts.observer
          (parse_result opts.attempt_id false (some Sentinel.malformed) (length msg))
        then_do λ _. finish (failed (map_err order r))
    | panicked ↦ finish crashed
  ]

  -- `New`
  abbrev pub adapter : Verifier
  adapter = record { namespace = codes "solana"; verify = verify }
