-- ===== src/Siwx/Evm/Laws.antt =====
-- siwx/evm/adapter.go: what the registry relies on.
use siwx_go.Base.{
  [], ◌∷◌, ◌++◌, ◌≤◌, ◌==◌, Bytes, Bool, Bool-cases, codes, false, arith, Option, none, some, ◌≡◌,
  ◌≢◌, equal_refl, length, inl, inr, Option-cases, true,
}
use siwx_go.Siwx.Checks.Trail.{check_order, read_clock-some, IsTame, Trail-IsTame, framed}
use siwx_go.Go.Hex.{hex_encode}
use siwx_go.Siwx.Errors.{Error, Outcome, failed, crashed}
use siwx_go.Siwx.Evm.Calldata.{has_erc6492_suffix, right_sized_word, erc1271_calldata}
use siwx_go.Siwx.Evm.Chain.{Answer, answered, refused, ChainClient, Resolver, Libs, Eip191Laws}
use siwx_go.Siwx.Evm.Signature.{
  is_magic_value, is_one_byte, judge, verify_eip191, hash_of, validate_erc6492, client_of,
  deployless, verify_deployed, verify_plain, verify_wrapped, verify_signature,
}
use siwx_go.Siwx.Evm.Verdicts.{Answer-cases}
use siwx_go.Siwx.Evm.Trail.{evm_checks-IsTrail, IsTrail-of}
use siwx_go.Siwx.Evm.{run_checks, verify}
use siwx_go.Siwx.Observer.{parse_result}
use siwx_go.Siwx.Registry.Trace.{emit_given}
use siwx_go.Siwx.Verifier.{Clock, nil, VerifyOpts}

abbrev no_verdict : Outcome (Unit {0})
no_verdict = crashed

judge-returns : (test : Bytes → Bool) (a : Answer) → judge test a ≢ crashed
unfolding judge
judge-returns test (refused e) h = cc
judge-returns test (answered ret) h = ground arith

module _ {M : Type 0} (lib : Libs M) (resolver : Option Resolver) (laws : Eip191Laws lib)
    (sig : Bytes) (full : 65 ≤ length sig) (parsed : M) where
  eip191-returns : verify_eip191 lib parsed sig ≢ crashed
  unfolding verify_eip191
  eip191-returns h = elim (Option-cases (lib.verify_eip191 parsed (codes "0x" ++ hex_encode sig))) [
    | inl e ↦ laws.returns parsed sig full e
    | inr (valid, e) ↦ ground (arith, e)
  ]

  deployed-returns :
      (c : ChainClient) (code : Bytes) → verify_deployed lib c parsed sig code ≢ crashed
  unfolding verify_deployed
  deployed-returns c [] h = eip191-returns h
  deployed-returns c (x ∷ code) h =
      let long : (length (x ∷ code) == 0) ≡ false = ground arith in
      judge-returns is_magic_value
        (c.call_contract (lib.address parsed) (erc1271_calldata (hash_of lib parsed) sig))
        (rw (verify_deployed, long) at h)

  plain-returns : (client : Option ChainClient) → verify_plain lib client parsed sig ≢ crashed
  unfolding verify_plain
  plain-returns none h = eip191-returns h
  plain-returns (some c) h = elim (Answer-cases (c.code_at (lib.address parsed))) [
    | inl (code, e) ↦ deployed-returns c code (rw (verify_plain, e) at h)
    | inr (x, e) ↦ failed_not_crashed (rw (verify_plain, e) at h)
  ]
    where
      failed_not_crashed : {x : Error} → ¬ (failed x ≡ no_verdict)
      failed_not_crashed q = cc

  wrapped-returns : (client : Option ChainClient) → verify_wrapped lib client parsed sig ≢ crashed
  unfolding verify_wrapped validate_erc6492
  wrapped-returns client h = elim (Option-cases (deployless client)) [
    | inl d ↦ ground (arith, d)
    | inr (call, d) ↦
        elim (Option-cases
          (lib.pack (lib.address parsed) (right_sized_word (hash_of lib parsed)) sig)) [
            | inl p ↦ ground (arith, d, p)
            | inr (encoded, p) ↦
                judge-returns is_one_byte (call (lib.validator_code ++ encoded))
                  (rw (verify_wrapped, d, validate_erc6492, p) at h)
          ]
  ]

  signature-returns : verify_signature lib resolver parsed sig ≢ crashed
  unfolding verify_signature
  signature-returns h = elim (Bool-cases (has_erc6492_suffix sig)) [
    | inl w ↦ wrapped-returns (client_of lib resolver parsed) (rw (verify_signature, w) at h)
    | inr n ↦ plain-returns (client_of lib resolver parsed) (rw (verify_signature, n) at h)
  ]

module _ {M : Type 0} (lib : Libs M) (resolver : Option Resolver) (laws : Eip191Laws lib)
    (sig : Bytes) (full : 65 ≤ length sig) where
  verify-IsTame :
      (clock : Clock) (msg : Bytes) (opts : VerifyOpts)
      → opts.observer ≢ nil
      → opts.clock ≡ some clock
      → IsTame opts.attempt_id (verify lib resolver msg sig opts)
  unfolding verify
  verify-IsTame clock msg opts given c = elim (Option-cases (lib.parse_message msg)) [
    | inl e ↦
        rw (verify, e, emit_given opts.observer _ given)
          (record { inner = (equal_refl opts.attempt_id, tt); returns = λ h. cc })
    | inr (m, e) ↦
        let t = Trail-IsTame opts.attempt_id check_order _ (
          IsTrail-of opts.attempt_id _ check_order _
            (evm_checks-IsTrail lib resolver opts given m sig (clock 0))
            (signature-returns lib resolver laws sig full m)) in
        rw (verify, e, emit_given opts.observer _ given, read_clock-some opts.clock clock 0 c)
          (framed opts.attempt_id (parse_result opts.attempt_id true none (length msg))
            (run_checks lib resolver m sig opts (clock 0)) (equal_refl opts.attempt_id) t)
  ]

  timed :
      (msg : Bytes) (opts : VerifyOpts)
      → opts.observer ≢ nil
      → opts.clock ≢ none
      → IsTame opts.attempt_id (verify lib resolver msg sig opts)
  timed msg opts o c = elim (Option-cases opts.clock) [
    | inl e ↦ absurd (c e)
    | inr (clock, e) ↦ verify-IsTame clock msg opts o e
  ]
