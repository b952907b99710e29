-- ===== src/Siwx/Solana/Checks.antt =====
-- siwx/solana/adapter.go: the events of the checks.
use siwx_go.Base.{List, [], ◌∷◌, Bytes, Bool, some, ◌≡◌, ◌≢◌, refl}
use siwx_go.Go.Time.{TimeLib}
use siwx_go.Siws.Errors.{Result, ok, err, panicked}
use siwx_go.Siws.Message.{Message}
use siwx_go.Siws.Verify.Returns.{verify_raw-Calm}
use siwx_go.Siws.Verify.{verify_raw}
use siwx_go.Siwx.Checks.Trail.{
  IsTrail, complete, stopped, check_order, read_clock-some, IsTrail-step,
}
use siwx_go.Siwx.Observer.{CheckName}
use siwx_go.Siwx.Registry.Trace.{emit_given}
use siwx_go.Siwx.Solana.{
  Entry, map_err, domain_error, not_before_error, expiry_error, nonce_error, identity_of, raw_opts,
  conclude_signature, run_checks,
}
use siwx_go.Siwx.Verifier.{Clock, nil, VerifyOpts}

module _ (opts : VerifyOpts) (given : opts.observer ≢ nil) where
  module _ (ed25519_verify : Bytes → Bytes → Bytes → Bool) (lib : TimeLib)
      (order : List Entry) where
    signature-IsTrail :
        (m : Message) (r : Result Message)
        → r ≢ panicked
        → IsTrail opts.attempt_id
            (CheckName.signature ∷ [])
            (conclude_signature ed25519_verify lib order m opts r)
    unfolding conclude_signature
    signature-IsTrail m (ok x) calm =
        rw (emit_given opts.observer _ given) (complete (identity_of m) refl)
    signature-IsTrail m (err x) calm =
        rw (emit_given opts.observer _ given)
          (stopped [] CheckName.signature [] (map_err order x) refl refl)
    signature-IsTrail m panicked calm = absurd (calm refl)

    -- The checks of a message that has been parsed come in the order domain, not before, expiry,
    -- nonce, signature; the first that fails is the last event and decides that the call fails, and
    -- the call succeeds only when all five have passed. The options hold an observer
    -- and a clock.
    pub run_checks-IsTrail :
        (clock : Clock) (m : Message) (msg sig : Bytes)
        → opts.clock ≡ some clock
        → IsTrail opts.attempt_id check_order (run_checks ed25519_verify lib order m msg sig opts)
    unfolding run_checks
    run_checks-IsTrail clock m msg sig c =
        rw
          (
            read_clock-some opts.clock clock 0 c,
            read_clock-some opts.clock clock 1 c,
            read_clock-some opts.clock clock 2 c,
          )
          (IsTrail-step opts given CheckName.domain (domain_error m opts) _ _ (
            IsTrail-step opts given CheckName.not_before (not_before_error m (clock 0)) _ _ (
              IsTrail-step opts given CheckName.expiry (expiry_error m (clock 1)) _ _ (
                IsTrail-step opts given CheckName.nonce (nonce_error m opts) _ _ (
                  signature-IsTrail m
                    (verify_raw ed25519_verify lib msg sig (raw_opts opts (clock 2)) (clock 2))
                    (verify_raw-Calm ed25519_verify lib msg sig (raw_opts opts (clock 2))
                      (clock 2)))))))
