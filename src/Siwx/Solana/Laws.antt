-- ===== src/Siwx/Solana/Laws.antt =====
-- siwx/solana/adapter.go: what the registry relies on.
use siwx_go.Base.{
  List, Bytes, Bool, true, none, some, ◌≡◌, ◌≢◌, equal_refl, length, inl, inr, Option-cases,
}
use siwx_go.Go.Time.{TimeLib}
use siwx_go.Siws.Errors.{Result-cases}
use siwx_go.Siws.Grammar.Returns.{parse_message-Calm}
use siwx_go.Siws.Parse.{parse_message}
use siwx_go.Siwx.Observer.{parse_result}
use siwx_go.Siwx.Registry.Trace.{VerifierLaws, emit_given}
use siwx_go.Siwx.Checks.Trail.{check_order, IsTame, Trail-IsTame, framed}
use siwx_go.Siwx.Solana.Checks.{run_checks-IsTrail}
use siwx_go.Siwx.Solana.{Entry, run_checks, verify, adapter}
use siwx_go.Siwx.Verifier.{Clock, nil, VerifyOpts}

module _ (ed25519_verify : Bytes → Bytes → Bytes → Bool) (lib : TimeLib) (order : List Entry) where
  verify-IsTame :
      (clock : Clock) (msg sig : Bytes) (opts : VerifyOpts)
      → opts.observer ≢ nil
      → opts.clock ≡ some clock
      → IsTame opts.attempt_id (verify ed25519_verify lib order msg sig opts)
  unfolding verify
  verify-IsTame clock msg sig opts given c = elim (Result-cases (parse_message lib msg)) [
    | inl (m, e) ↦
        let t =
          Trail-IsTame opts.attempt_id check_order _
            (run_checks-IsTrail opts given ed25519_verify lib order clock m msg sig c) in
        rw (verify, e, emit_given opts.observer _ given)
          (framed opts.attempt_id (parse_result opts.attempt_id true none (length msg))
            (run_checks ed25519_verify lib order m msg sig opts) (equal_refl opts.attempt_id) t)
    | inr (inl (r, e)) ↦
        rw (verify, e, emit_given opts.observer _ given)
          (record { inner = (equal_refl opts.attempt_id, tt); returns = λ h. cc })
    | inr (inr e) ↦ absurd (parse_message-Calm lib msg e)
  ]

  timed :
      (msg sig : Bytes) (opts : VerifyOpts)
      → opts.observer ≢ nil
      → opts.clock ≢ none
      → IsTame opts.attempt_id (verify ed25519_verify lib order msg sig opts)
  timed msg sig opts o c = elim (Option-cases opts.clock) [
    | inl e ↦ absurd (c e)
    | inr (clock, e) ↦ verify-IsTame clock msg sig opts o e
  ]

  -- The adapter emits events of its attempt only and never panics, on options that hold an observer
  -- and a clock, whatever the signature.
  pub adapter-VerifierLaws : (sig : Bytes) → VerifierLaws sig (adapter ed25519_verify lib order)
  adapter-VerifierLaws sig = record {
    inner = λ msg opts o c. (timed msg sig opts o c).inner;
    returns = λ msg opts o c. (timed msg sig opts o c).returns;
  }
