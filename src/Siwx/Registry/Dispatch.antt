-- ===== src/Siwx/Registry/Dispatch.antt =====
-- siwx/registry.go: where an identity that `Verify` returns comes from.
use siwx_go.Base.{[], Bytes, Option, some, equal, ◌≡◌, ◌≢◌, ◌∙◌, inl, inr, Bool-cases, Option-cases}
use siwx_go.Go.Hex.{hex_encode}
use siwx_go.Siwx.Caip.{Caip2}
use siwx_go.Siwx.Checks.Returned.{failed_not, crashed_not}
use siwx_go.Siwx.Errors.{returned}
use siwx_go.Siwx.Registry.Trace.{emit_given, Outcome-cases}
use siwx_go.Siwx.Registry.Defaults.{observer_or_nop-given}
use siwx_go.Siwx.Registry.{
  Registry, find, new_attempt_id, with_defaults, report, dispatch, verify, observer_or_nop,
  clock_or_real,
}
use siwx_go.Siwx.Verifier.{Clock, nil, VerifyOpts, Identity, Verifier}

module _ (wall : Clock) (random : Option Bytes) (reg : Registry) (chain : Caip2) (msg sig : Bytes)
    (i : Identity) where
  -- A registered verifier returned the identity, on these options.
  pub record IsFrom (opts : VerifyOpts) : Type 0 where
    pub verifier : Verifier
    pub found : find reg chain.namespace ≡ some verifier
    pub returns : (verifier.verify msg sig opts).outcome ≡ returned i

  -- The options with the defaults of `Verify`.
  abbrev pub defaulted : VerifyOpts → Bytes → VerifyOpts
  defaulted opts id = record opts {
    observer = observer_or_nop opts.observer;
    clock = clock_or_real wall opts.clock;
    attempt_id = id;
  }

  dispatch-returned :
      (opts : VerifyOpts)
      → opts.observer ≢ nil
      → (dispatch wall random reg chain msg sig opts).outcome ≡ returned i
      → IsFrom opts
  unfolding dispatch report
  dispatch-returned opts o h = elim (Option-cases (find reg chain.namespace)) [
    | inl e ↦ absurd (
        failed_not
          (rw (dispatch, emit_given opts.observer _ o, e, emit_given opts.observer _ o) at h))
    | inr (v, e) ↦ elim (Outcome-cases (v.verify msg sig opts).outcome) [
      | inl (a, f) ↦
          let h' =
            rw (dispatch, emit_given opts.observer _ o, e, report, f, emit_given opts.observer _ o)
              at h in
          record { verifier = v; found = e; returns = f ∙ h' }
      | inr (inl (x, f)) ↦ absurd (
          failed_not (
            rw (dispatch, emit_given opts.observer _ o, e, report, f, emit_given opts.observer _ o)
              at h))
      | inr (inr f) ↦
          absurd (crashed_not (rw (dispatch, emit_given opts.observer _ o, e, report, f) at h))
    ]
  ]

  -- What `Verify` returns is what a registered verifier of the namespace returned, on the same
  -- options but for the defaults.
  pub verify-IsFrom :
      (opts : VerifyOpts)
      → (verify wall random reg chain msg sig opts).outcome ≡ returned i
      → (id : Bytes) × IsFrom (defaulted opts id)
  unfolding verify with_defaults new_attempt_id
  verify-IsFrom opts h = elim (Bool-cases (equal opts.attempt_id [])) [
    | inr e ↦ (
      opts.attempt_id,
      dispatch-returned (defaulted opts opts.attempt_id)
          (observer_or_nop-given wall random opts.observer) (rw (verify, with_defaults, e) at h),
    )
    | inl e ↦ elim (Option-cases random) [
      | inl f ↦ absurd (crashed_not (rw (verify, with_defaults, e, new_attempt_id, f) at h))
      | inr (b, f) ↦ (
        hex_encode b,
        dispatch-returned (defaulted opts (hex_encode b))
            (observer_or_nop-given wall random opts.observer)
            (rw (verify, with_defaults, e, new_attempt_id, f) at h),
      )
    ]
  ]
