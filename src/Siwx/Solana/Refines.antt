-- ===== src/Siwx/Solana/Refines.antt =====
-- siwx/solana/adapter.go: `Verify` against `siws.VerifyRaw`.
use siwx_go.Base.{
  ℕ, ◌≤◌, List, [], Bytes, Bool, false, Option, none, some, ◌≡◌, ◌≢◌, ◌↔◌, refl, sym, ap, ◌∙◌,
  arith, equal_iff, inl, inr,
}
use siwx_go.Go.Time.{TimeLib}
use siwx_go.Siws.Errors.{ok, Result-cases}
use siwx_go.Siws.Fields.Laws.{equal-false}
use siwx_go.Siws.Message.{Message}
use siwx_go.Siws.Parse.{parse_message}
use siwx_go.Siws.Verify.Accepts.{Accepts-of_verify_raw, NotLate}
use siwx_go.Siws.Verify.{is_early, is_late, verify_raw}
use siwx_go.Siwx.Errors.{returned}
use siwx_go.Siwx.Registry.Trace.{emit_given}
use siwx_go.Siwx.Checks.Returned.{failed_not, crashed_not}
use siwx_go.Siwx.Solana.Accepts.{checks_pass, pass_checks}
use siwx_go.Siwx.Solana.{
  Entry, domain_error, not_before_error, expiry_error, nonce_error, identity_of, raw_opts, verify,
}
use siwx_go.Siwx.Verifier.{Clock, nil, VerifyOpts, Identity}

still_late : (o : Option ℕ) (t u : ℕ) → t ≤ u → NotLate o u → is_late o t ≡ false
unfolding is_late
still_late none t u h n = refl
still_late (some over) t u h n = ground arith

early_none :
    (m : Message) (t : ℕ) → (not_before_error m t ≡ none) ↔ (is_early m.not_before t ≡ false)
unfolding not_before_error
early_none m t = ground arith

late_none : (m : Message) (t : ℕ) → is_late m.expiration_time t ≡ false → expiry_error m t ≡ none
unfolding expiry_error
late_none m t h = ground arith

no_domain_error :
    (m : Message) (opts : VerifyOpts)
    → opts.expected_domain ≢ []
    → m.domain ≡ opts.expected_domain
    → domain_error m opts ≡ none
unfolding domain_error
no_domain_error m opts ne e =
    rw (equal-false opts.expected_domain [] ne, (equal_iff m.domain opts.expected_domain).1 e)

no_nonce_error :
    (m : Message) (opts : VerifyOpts) → m.nonce ≡ opts.expected_nonce → nonce_error m opts ≡ none
unfolding nonce_error
no_nonce_error m opts e = rw ((equal_iff m.nonce opts.expected_nonce).1 e)

same_ok : (m m' : Message) → ok m ≡ ok m' → m ≡ m'
same_ok m m' h = cc

module _ (ed25519_verify : Bytes → Bytes → Bytes → Bool) (lib : TimeLib) (order : List Entry)
    (clock : Clock) (opts : VerifyOpts) (given : opts.observer ≢ nil) (c : opts.clock ≡ some clock)
    (msg sig : Bytes) (i : Identity) where
  -- `VerifyRaw` accepts the bytes at the third reading of the clock, as a message that had begun at
  -- the first reading, and the identity is the message's.
  pub record IsVerified : Type 0 where
    pub message : Message
    pub accepted :
        verify_raw ed25519_verify lib msg sig (raw_opts opts (clock 2)) (clock 2) ≡ ok message
    pub begun : is_early message.not_before (clock 0) ≡ false
    pub identity : i ≡ identity_of message

  pub sound : (verify ed25519_verify lib order msg sig opts).outcome ≡ returned i → IsVerified
  unfolding verify
  sound h = elim (Result-cases (parse_message lib msg)) [
    | inl (m, e) ↦
        let h' = rw (verify, e, emit_given opts.observer _ given) at h in
        let p = checks_pass opts given i ed25519_verify lib order m clock msg sig c h' in
        let a =
          Accepts-of_verify_raw ed25519_verify lib msg sig (raw_opts opts (clock 2)) (clock 2) p.raw
            p.signed in
        let same : m ≡ p.raw = same_ok m p.raw (sym e ∙ a.parses) in
        record {
          message = p.raw;
          accepted = p.signed;
          begun = (early_none p.raw (clock 0)).0 (rw same at p.not_before_passes);
          identity = p.identity ∙ ap (λ (q : Message). identity_of q) same;
        }
    | inr (inl (r, e)) ↦ absurd (failed_not (rw (verify, e, emit_given opts.observer _ given) at h))
    | inr (inr e) ↦ absurd (crashed_not (rw (verify, e) at h))
  ]

  complete :
      clock 1 ≤ clock 2
      → IsVerified
      → (verify ed25519_verify lib order msg sig opts).outcome ≡ returned i
  unfolding verify
  complete h v =
      let m = v.message in
      let a =
        Accepts-of_verify_raw ed25519_verify lib msg sig (raw_opts opts (clock 2)) (clock 2) m
          v.accepted in
      rw (verify, a.parses, emit_given opts.observer _ given)
        (pass_checks opts given i ed25519_verify lib order m clock msg sig c (record {
          domain_passes = no_domain_error m opts a.domain_given a.domain_is;
          not_before_passes = (early_none m (clock 0)).1 v.begun;
          expiry_passes =
              late_none m (clock 1) (still_late m.expiration_time (clock 1) (clock 2) h a.not_over);
          nonce_passes = no_nonce_error m opts a.nonce_is;
          raw = m;
          signed = v.accepted;
          identity = v.identity;
        }))

  -- On options that hold an observer, and a clock that does not run backwards between its second and
  -- its third reading, the adapter returns an identity exactly if `siws.VerifyRaw` accepts the bytes
  -- and the signature at the third reading, the message had begun at the first reading, and the
  -- identity is the message's.
  pub verify_iff :
      clock 1 ≤ clock 2
      → ((verify ed25519_verify lib order msg sig opts).outcome ≡ returned i) ↔ IsVerified
  verify_iff h = (sound, complete h)
