-- ===== src/Siwx/Solana/Accepts.antt =====
-- siwx/solana/adapter.go: the successful run, check by check.
use siwx_go.Base.{List, Bytes, Bool, true, false, none, some, ◌≡◌, ◌≢◌, refl, sym, ap}
use siwx_go.Go.Time.{TimeLib}
use siwx_go.Siws.Errors.{Result, ok, err, panicked}
use siwx_go.Siws.Message.{Message}
use siwx_go.Siws.Verify.{verify_raw}
use siwx_go.Siwx.Errors.{returned}
use siwx_go.Siwx.Observer.{CheckName, check_result}
use siwx_go.Siwx.Registry.Trace.{emit_given}
use siwx_go.Siwx.Checks.Trail.{read_clock-some}
use siwx_go.Siwx.Checks.Returned.{
  failed_not, crashed_not, returned_inj, conclude-returned, returned-conclude,
}
use siwx_go.Siwx.Solana.{
  Entry, domain_error, not_before_error, expiry_error, nonce_error, identity_of, raw_opts,
  conclude_signature, run_checks,
}
use siwx_go.Siwx.Verifier.{Clock, nil, VerifyOpts, Identity}

module _ (opts : VerifyOpts) (given : opts.observer ≢ nil) (i : Identity) where
  module _ (ed25519_verify : Bytes → Bytes → Bytes → Bool) (lib : TimeLib) (order : List Entry)
      (m : Message) where
    signature_returned :
        (r : Result Message)
        → (conclude_signature ed25519_verify lib order m opts r).outcome ≡ returned i
        → ((m' : Message) × (r ≡ ok m')) × (i ≡ identity_of m)
    unfolding conclude_signature
    signature_returned (ok m') h =
        let e =
          rw
            (emit_given opts.observer (check_result opts.attempt_id CheckName.signature true) given)
            at h in
        ((m', refl), sym (returned_inj e))
    signature_returned (err r) h = absurd (
        failed_not (
          rw
            (emit_given opts.observer (check_result opts.attempt_id CheckName.signature false)
              given)
            at h))
    signature_returned panicked h = absurd (crashed_not h)

    returned_signature :
        (m' : Message)
        → i ≡ identity_of m
        → (conclude_signature ed25519_verify lib order m opts (ok m')).outcome ≡ returned i
    unfolding conclude_signature
    returned_signature m' e =
        rw (emit_given opts.observer (check_result opts.attempt_id CheckName.signature true) given)
          (ap returned (sym e))

    -- What the checks and the signature come to, put together.
    pub record AllPass (clock : Clock) (msg sig : Bytes) : Type 0 where
      pub domain_passes : domain_error m opts ≡ none
      pub not_before_passes : not_before_error m (clock 0) ≡ none
      pub expiry_passes : expiry_error m (clock 1) ≡ none
      pub nonce_passes : nonce_error m opts ≡ none
      pub raw : Message
      pub signed :
          verify_raw ed25519_verify lib msg sig (raw_opts opts (clock 2)) (clock 2) ≡ ok raw
      pub identity : i ≡ identity_of m

    module _ (clock : Clock) (msg sig : Bytes) (c : opts.clock ≡ some clock) where
      pub checks_pass :
          (run_checks ed25519_verify lib order m msg sig opts).outcome ≡ returned i
          → AllPass clock msg sig
      unfolding run_checks
      checks_pass h =
          let h' =
            rw
              (
                run_checks,
                read_clock-some opts.clock clock 0 c,
                read_clock-some opts.clock clock 1 c,
                read_clock-some opts.clock clock 2 c,
              )
              at h in
          let (d, h1) =
            conclude-returned opts given i CheckName.domain (domain_error m opts) _ h' in
          let (n, h2) =
            conclude-returned opts given i CheckName.not_before (not_before_error m (clock 0)) _
              h1 in
          let (e, h3) =
            conclude-returned opts given i CheckName.expiry (expiry_error m (clock 1)) _ h2 in
          let (u, h4) = conclude-returned opts given i CheckName.nonce (nonce_error m opts) _ h3 in
          let ((m', s), same) =
            signature_returned
              (verify_raw ed25519_verify lib msg sig (raw_opts opts (clock 2)) (clock 2)) h4 in
          record {
            domain_passes = d;
            not_before_passes = n;
            expiry_passes = e;
            nonce_passes = u;
            raw = m';
            signed = s;
            identity = same;
          }

      pub pass_checks :
          AllPass clock msg sig
          → (run_checks ed25519_verify lib order m msg sig opts).outcome ≡ returned i
      unfolding run_checks
      pass_checks p =
          rw
            (
              read_clock-some opts.clock clock 0 c,
              read_clock-some opts.clock clock 1 c,
              read_clock-some opts.clock clock 2 c,
            )
            (returned-conclude opts given i CheckName.domain (domain_error m opts) _ p.domain_passes
              (returned-conclude opts given i CheckName.not_before (not_before_error m (clock 0)) _
                p.not_before_passes
                (returned-conclude opts given i CheckName.expiry (expiry_error m (clock 1)) _
                  p.expiry_passes
                  (returned-conclude opts given i CheckName.nonce (nonce_error m opts) _
                    p.nonce_passes (rw p.signed (returned_signature p.raw p.identity))))))
