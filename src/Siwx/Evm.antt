-- ===== src/Siwx/Evm.antt =====
-- siwx/evm/adapter.go. It reads the clock once, behind the parse.
pub mod Calldata
pub mod Chain
pub mod Signature
pub mod Verdicts
pub mod Routing
pub mod Rejections
pub mod Trail
pub mod Accepts
pub mod Refines
pub mod Laws
pub mod EvmRpc
pub mod Bytecode
use siwx_go.Base.{
  ℕ, List, [], ◌∷◌, ◌++◌, Bytes, codes, Bool, true, false, not, ◌||◌, Option, none, some,
  if◌then◌else◌, equal, length,
}
use siwx_go.Go.Strconv.{decimal}
use siwx_go.Go.Time.{TimeLib, before, rfc3339_nano, rfc3339, millis_z}
use siwx_go.Siws.Trailer.{parse_layouts}
use siwx_go.Siwx.Checks.{conclude, read_clock}
use siwx_go.Siwx.Errors.{Sentinel, Error, Outcome, returned, failed, crashed}
use siwx_go.Siwx.Evm.Chain.{Resolver, Libs}
use siwx_go.Siwx.Evm.Signature.{verify_signature}
use siwx_go.Siwx.Observer.{CheckName, Event, parse_result, check_result}
use siwx_go.Siwx.Verifier.{
  Clock, ObserverField, VerifyOpts, Identity, Run, ◌then_do◌, finish, emit, Verifier,
}

-- `parseISO8601`
unfoldable pub parse_iso8601 : TimeLib → Bytes → Option ℕ
unfolding parse_layouts
parse_iso8601 time = parse_layouts time (rfc3339_nano ∷ rfc3339 ∷ millis_z ∷ [])

-- `if t, err := parseISO8601(*field); err == nil`, on a pointer that may be `nil`.
unfoldable pub readable : TimeLib → Option Bytes → Option ℕ
unfolding parse_iso8601
readable time none = none
readable time (some s) = parse_iso8601 time s

-- The two checks against the clock: `failing` is the comparison, `sentinel` its error.
unfoldable pub time_error : TimeLib → Option Bytes → (ℕ → Bool) → Sentinel → Option Error
unfolding parse_iso8601
time_error time none failing sentinel = none
time_error time (some s) failing sentinel = elim (parse_iso8601 time s) [
  | none ↦ some (Sentinel.malformed ∷ [])
  | some t ↦ if failing t then some (sentinel ∷ []) else none
]

-- The event of the check `signature`, and its error, behind the call of `verifySignature`.
unfoldable pub conclude_signature : VerifyOpts → Outcome (Unit {0}) → Run (Unit {0})
unfolding conclude
conclude_signature opts (returned _) = conclude opts CheckName.signature none
conclude_signature opts (failed e) = conclude opts CheckName.signature (some e)
conclude_signature opts crashed = finish crashed

module _ {M : Type 0} (lib : Libs M) where
  -- The four functions of `checks`.
  unfoldable pub domain_error : M → VerifyOpts → Option Error
  unfolding equal
  domain_error parsed opts =
      if equal opts.expected_domain [] || not (equal (lib.domain parsed) opts.expected_domain)
      then some (Sentinel.domain_mismatch ∷ [])
      else none

  unfoldable pub not_before_error : M → ℕ → Option Error
  unfolding time_error
  not_before_error parsed now =
      time_error lib.time (lib.not_before parsed) (λ t. before now t) Sentinel.not_yet_valid

  unfoldable pub expiry_error : M → ℕ → Option Error
  unfolding time_error
  expiry_error parsed now =
      time_error lib.time (lib.expiration_time parsed) (λ t. not (before now t)) Sentinel.expired

  unfoldable pub nonce_error : M → VerifyOpts → Option Error
  unfolding equal
  nonce_error parsed opts =
      if not (equal (lib.nonce parsed) opts.expected_nonce)
      then some (Sentinel.nonce_mismatch ∷ [])
      else none

  -- The literal `Identity`: an instant that does not parse leaves `time.Time{}`.
  unfoldable pub identity_of : M → Identity
  unfolding decimal parse_iso8601 readable
  identity_of parsed = record {
    account = record {
      chain_id = record { namespace = codes "eip155"; reference = decimal (lib.chain_id parsed) };
      address = lib.hex_address (lib.address parsed);
    };
    domain = lib.domain parsed;
    nonce = lib.nonce parsed;
    issued_at = elim (parse_iso8601 lib.time (lib.issued_at parsed)) [
      | none ↦ lib.time.zero
      | some t ↦ t
    ];
    expires_at = readable lib.time (lib.expiration_time parsed);
  }

  module _ (resolver : Option Resolver) where
    -- The loop over `checks`, and the signature.
    unfoldable pub run_checks : M → Bytes → VerifyOpts → ℕ → Run Identity
    unfolding conclude conclude_signature verify_signature identity_of
    run_checks parsed sig opts now =
        conclude opts CheckName.domain (domain_error parsed opts) then_do λ _.
        conclude opts CheckName.not_before (not_before_error parsed now) then_do λ _.
        conclude opts CheckName.expiry (expiry_error parsed now) then_do λ _.
        conclude opts CheckName.nonce (nonce_error parsed opts) then_do λ _.
        conclude_signature opts (verify_signature lib resolver parsed sig) then_do λ _.
        finish (returned (identity_of parsed))

    -- `func (a adapter) Verify`
    unfoldable pub verify : Bytes → Bytes → VerifyOpts → Run Identity
    unfolding emit read_clock run_checks
    verify msg sig opts = elim (lib.parse_message msg) [
      | none ↦
          emit opts.observer
            (parse_result opts.attempt_id false (some Sentinel.malformed) (length msg))
          then_do λ _. finish (failed (Sentinel.malformed ∷ []))
      | some parsed ↦
          emit opts.observer (parse_result opts.attempt_id true none (length msg)) then_do λ _.
          read_clock opts.clock 0 then_do λ now. run_checks parsed sig opts now
    ]

    -- `New` and `WithChainClient`
    abbrev pub adapter : Verifier
    adapter = record { namespace = codes "eip155"; verify = verify }
