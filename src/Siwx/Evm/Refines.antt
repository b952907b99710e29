-- ===== src/Siwx/Evm/Refines.antt =====
-- siwx/evm/adapter.go: the calls of `Verify` that return an identity.
use siwx_go.Base.{
  ◌≤◌, ◌<◌, [], Bytes, Option, none, some, refl, ◌≡◌, ◌≢◌, ◌↔◌, sym, ap, inl, inr, Option-cases,
}
use siwx_go.Siwx.Checks.Returned.{
  failed_not, crashed_not, returned_inj, conclude-returned, returned-conclude,
}
use siwx_go.Siwx.Checks.Trail.{read_clock-some}
use siwx_go.Siwx.Errors.{Outcome, returned, failed, crashed}
use siwx_go.Siwx.Evm.Accepts.{Reads, domain_iff, not_before_iff, expiry_iff, nonce_iff}
use siwx_go.Siwx.Evm.Chain.{Resolver, Libs}
use siwx_go.Siwx.Evm.Routing.{Accepted, verify_signature_iff}
use siwx_go.Siwx.Evm.Signature.{client_of, verify_signature}
use siwx_go.Siwx.Evm.{
  domain_error, not_before_error, expiry_error, nonce_error, identity_of, conclude_signature,
  run_checks, verify,
}
use siwx_go.Siwx.Observer.{CheckName}
use siwx_go.Siwx.Registry.Trace.{emit_given}
use siwx_go.Siwx.Verifier.{Clock, nil, VerifyOpts, Identity, Run, ◌then_do◌}

module _ (opts : VerifyOpts) (given : opts.observer ≢ nil) (i : Identity)
    (k : Unit {0} → Run Identity) where
  signature-returned :
      (verdict : Outcome (Unit {0}))
      → (conclude_signature opts verdict then_do k).outcome ≡ returned i
      → (verdict ≡ returned tt) × ((k tt).outcome ≡ returned i)
  unfolding conclude_signature
  signature-returned (returned _) h =
      (refl, (conclude-returned opts given i CheckName.signature none k h).1)
  signature-returned (failed e) h =
      absurd (some_not (conclude-returned opts given i CheckName.signature (some e) k h).0)
    where
      some_not : ¬ (some e ≡ none)
      some_not q = cc
  signature-returned crashed h = absurd (crashed_not h)

  returned-signature :
      (verdict : Outcome (Unit {0}))
      → verdict ≡ returned tt
      → (k tt).outcome ≡ returned i
      → (conclude_signature opts verdict then_do k).outcome ≡ returned i
  unfolding conclude_signature
  returned-signature verdict e h =
      rw (e, conclude_signature) (returned-conclude opts given i CheckName.signature none k refl h)

module _ {M : Type 0} (lib : Libs M) (resolver : Option Resolver) (clock : Clock)
    (opts : VerifyOpts) (given : opts.observer ≢ nil) (c : opts.clock ≡ some clock)
    (msg sig : Bytes) (i : Identity) where
  -- The bytes are a message for the domain and the nonce that are expected, within its times at the
  -- one reading of the clock, whose signature is accepted, and the identity is the message's.
  pub record IsSignIn : Type 0 where
    pub message : M
    pub parses : lib.parse_message msg ≡ some message
    pub domain_given : opts.expected_domain ≢ []
    pub domain_is : lib.domain message ≡ opts.expected_domain
    pub begun : Reads lib.time (λ t. t ≤ clock 0) (lib.not_before message)
    pub not_over : Reads lib.time (λ t. clock 0 < t) (lib.expiration_time message)
    pub nonce_is : lib.nonce message ≡ opts.expected_nonce
    pub signed : Accepted lib message sig (client_of lib resolver message)
    pub identity : i ≡ identity_of lib message

  pub sound : (verify lib resolver msg sig opts).outcome ≡ returned i → IsSignIn
  unfolding verify run_checks
  sound h = elim (Option-cases (lib.parse_message msg)) [
    | inl e ↦ absurd (failed_not (rw (verify, e, emit_given opts.observer _ given) at h))
    | inr (m, e) ↦
        let h0 =
          rw
            (
              verify,
              e,
              emit_given opts.observer _ given,
              read_clock-some opts.clock clock 0 c,
              run_checks,
            )
            at h in
        let (d, h1) =
          conclude-returned opts given i CheckName.domain (domain_error lib m opts) _ h0 in
        let (n, h2) =
          conclude-returned opts given i CheckName.not_before (not_before_error lib m (clock 0)) _
            h1 in
        let (x, h3) =
          conclude-returned opts given i CheckName.expiry (expiry_error lib m (clock 0)) _ h2 in
        let (u, h4) =
          conclude-returned opts given i CheckName.nonce (nonce_error lib m opts) _ h3 in
        let (s, h5) = signature-returned opts given i _ (verify_signature lib resolver m sig) h4 in
        let (dg, di) = (domain_iff lib m opts).0 d in
        record {
          message = m;
          parses = e;
          domain_given = dg;
          domain_is = di;
          begun = (not_before_iff lib m (clock 0)).0 n;
          not_over = (expiry_iff lib m (clock 0)).0 x;
          nonce_is = (nonce_iff lib m opts).0 u;
          signed = (verify_signature_iff lib m sig resolver).0 s;
          identity = sym (returned_inj h5);
        }
  ]

  complete : IsSignIn → (verify lib resolver msg sig opts).outcome ≡ returned i
  unfolding verify run_checks
  complete v =
      let m = v.message in
      let after_nonce =
        returned-signature opts given i _ (verify_signature lib resolver m sig)
          ((verify_signature_iff lib m sig resolver).1 v.signed) (ap returned (sym v.identity)) in
      rw
        (
          verify,
          v.parses,
          emit_given opts.observer _ given,
          read_clock-some opts.clock clock 0 c,
          run_checks,
        )
        (returned-conclude opts given i CheckName.domain (domain_error lib m opts) _
          ((domain_iff lib m opts).1 (v.domain_given, v.domain_is))
          (returned-conclude opts given i CheckName.not_before (not_before_error lib m (clock 0)) _
            ((not_before_iff lib m (clock 0)).1 v.begun)
            (returned-conclude opts given i CheckName.expiry (expiry_error lib m (clock 0)) _
              ((expiry_iff lib m (clock 0)).1 v.not_over)
              (returned-conclude opts given i CheckName.nonce (nonce_error lib m opts) _
                ((nonce_iff lib m opts).1 v.nonce_is) after_nonce))))

  -- On options that hold an observer and a clock, the EVM adapter returns an identity exactly if the
  -- bytes parse as a message of the expected domain and nonce, the domain is not empty, the message
  -- has begun and is not over at the one reading of the clock, its signature is accepted, and the
  -- identity is the message's.
  pub evm_verify_iff : ((verify lib resolver msg sig opts).outcome ≡ returned i) ↔ IsSignIn
  evm_verify_iff = (sound, complete)
