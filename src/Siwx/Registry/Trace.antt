-- ===== src/Siwx/Registry/Trace.antt =====
-- siwx/registry.go: the events of a call of `Verify`.
use siwx_go.Base.{
  [], ◌∷◌, ◌++◌, All, Bytes, Bool, true, false, Option, none, some, equal, ◌≡◌, ◌≢◌, refl,
  Option-cases, inl, inr, ◌⊎◌,
}
use siwx_go.Siwx.Caip.{Caip2}
use siwx_go.Siwx.Errors.{Sentinel, Error, Outcome, returned, failed, crashed}
use siwx_go.Siwx.Observer.{
  Terminal, known, no_error, Event, verify_attempt, parse_result, check_result, verify_result,
}
use siwx_go.Siwx.Registry.Defaults.{IsCompleted, defaults-AreSet}
use siwx_go.Siwx.Registry.Lookup.{FoundIn, find-FoundIn, find-Lacks}
use siwx_go.Siwx.Registry.Reports.{Reports, sentinel_for-Reports}
use siwx_go.Siwx.Registry.{Registry, find, sentinel_for, report, dispatch, verify}
use siwx_go.Siwx.Verifier.{
  Clock, ObserverField, nil, nop_observer, observer, VerifyOpts, Identity, Run, emit, Verifier,
}

-- The event is one that adapters emit, for this attempt.
abbrev pub is_inner : Bytes → Event → Bool
is_inner id (parse_result a _ _ _) = equal a id
is_inner id (check_result a _ _) = equal a id
is_inner id _ = false

-- The registry relies on this of a verifier, on options that hold an observer and a clock: it emits
-- events of the attempt only, and does not panic on this signature.
pub record VerifierLaws (sig : Bytes) (v : Verifier) : Type 0 where
  pub inner :
      (msg : Bytes) (opts : VerifyOpts)
      → opts.observer ≢ nil
      → opts.clock ≢ none
      → All (λ e. is_inner opts.attempt_id e ≡ true) (v.verify msg sig opts).events
  pub returns :
      (msg : Bytes) (opts : VerifyOpts)
      → opts.observer ≢ nil
      → opts.clock ≢ none
      → (v.verify msg sig opts).outcome ≢ crashed

-- What follows the defaults. With no verifier for the namespace, an attempt and its refusal. With
-- one, an attempt, the events of that verifier on these options, and the report of its outcome.
pub data Routed (reg : Registry) (chain : Caip2) (msg sig : Bytes) (set : VerifyOpts)
    : Run Identity → Type 0 where
  unregistered :
      All (λ (v : Verifier). v.namespace ≢ chain.namespace) reg
      → Routed reg chain msg sig set (record {
        events =
            verify_attempt set.attempt_id chain.namespace set.expected_domain []
            ∷ verify_result set.attempt_id false
                (known Sentinel.unsupported_namespace)
                chain.namespace
            ∷ [];
        outcome = failed (Sentinel.unsupported_namespace ∷ []);
      })
  verified :
      (v : Verifier) (passed : Bool) (terminal : Terminal)
      → FoundIn chain.namespace reg v
      → Reports (v.verify msg sig set).outcome passed terminal
      → All (λ e. is_inner set.attempt_id e ≡ true) (v.verify msg sig set).events
      → Routed reg chain msg sig set (record {
        events =
            verify_attempt set.attempt_id chain.namespace set.expected_domain []
            ∷ ((v.verify msg sig set).events
                ++ verify_result set.attempt_id passed terminal chain.namespace ∷ []);
        outcome = (v.verify msg sig set).outcome;
      })

-- The whole run of a call.
pub record IsTrace (wall : Clock) (bytes : Bytes) (reg : Registry) (chain : Caip2) (msg sig : Bytes)
    (opts : VerifyOpts) (run : Run Identity) : Type 0 where
  pub set : VerifyOpts
  pub completed : IsCompleted wall bytes opts set
  pub routed : Routed reg chain msg sig set run

pub emit_given :
    (o : ObserverField) (e : Event)
    → o ≢ nil
    → emit o e ≡ record { events = e ∷ []; outcome = returned tt }
unfolding emit
emit_given nil e h = absurd (h refl)
emit_given nop_observer e h = refl
emit_given (observer n) e h = refl

FoundIn-laws :
    (sig ns : Bytes) (reg : Registry) (v : Verifier)
    → FoundIn ns reg v
    → All (VerifierLaws sig) reg
    → VerifierLaws sig v
FoundIn-laws sig ns _ _ (FoundIn.here v reg same) (l, laws) = l
FoundIn-laws sig ns _ _ (FoundIn.there w v reg other f) (l, laws) = FoundIn-laws sig ns reg v f laws

pub Outcome-cases :
    {A : Type 0} (o : Outcome A)
    → ((a : A) × (o ≡ returned a)) ⊎ (((e : Error) × (o ≡ failed e)) ⊎ (o ≡ crashed))
Outcome-cases (returned a) = inl (a, refl)
Outcome-cases (failed e) = inr (inl (e, refl))
Outcome-cases crashed = inr (inr refl)

-- What `report` adds to a run that does not panic.
Reported : VerifyOpts → Bytes → Run Identity → Run Identity → Type 0
Reported opts ns r run =
    (passed : Bool) × (terminal : Terminal) × Reports r.outcome passed terminal
    × (run ≡ record {
      events = r.events ++ verify_result opts.attempt_id passed terminal ns ∷ [];
      outcome = r.outcome;
    })

module _ (wall : Clock) (random : Option Bytes) where
  report-Reported :
      (opts : VerifyOpts) (ns : Bytes) (r : Run Identity)
      → opts.observer ≢ nil
      → r.outcome ≢ crashed
      → Reported opts ns r (report wall random opts ns r)
  unfolding Reported report
  report-Reported opts ns r o h = elim (Outcome-cases r.outcome) [
    | inl (a, e) ↦ rw (e, emit_given opts.observer _ o) (true, no_error, Reports.success a, refl)
    | inr (inl (x, e)) ↦
        rw (e, emit_given opts.observer _ o) (false, sentinel_for x, sentinel_for-Reports x, refl)
    | inr (inr e) ↦ absurd (h e)
  ]

  module _ (reg : Registry) (chain : Caip2) (msg sig : Bytes)
      (laws : All (VerifierLaws sig) reg) where
    dispatch-Routed :
        (opts : VerifyOpts)
        → opts.observer ≢ nil
        → opts.clock ≢ none
        → Routed reg chain msg sig opts (dispatch wall random reg chain msg sig opts)
    unfolding dispatch Reported
    dispatch-Routed opts o c = elim (Option-cases (find reg chain.namespace)) [
      | inl e ↦
          rw (emit_given opts.observer _ o, e, emit_given opts.observer _ o)
            (Routed.unregistered (find-Lacks reg chain.namespace e))
      | inr (v, e) ↦
          let f = find-FoundIn reg chain.namespace v e in
          let l = FoundIn-laws sig chain.namespace reg v f laws in
          let (passed, terminal, r, same) =
            report-Reported opts chain.namespace (v.verify msg sig opts) o
              (l.returns msg opts o c) in
          rw (emit_given opts.observer _ o, e, same)
            (Routed.verified v passed terminal f r (l.inner msg opts o c))
    ]

  -- Where `rand.Read` gives some bytes and the registered verifiers keep their laws on the signature,
  -- the run of a call of `Verify` is, for all options, exactly this. The observer, the clock and the identifier
  -- that the options leave out are an observer that does nothing, the system's clock and these
  -- bytes in hexadecimal digits. If no verifier has the namespace of the chain, the run is an attempt
  -- and a result, and `ErrUnsupportedNamespace`. Otherwise it is an attempt, all events of the first
  -- verifier of this namespace on the completed options, and one result, with the outcome of that
  -- verifier, which is no panic: the result is a success for a value and a failure for an error,
  -- under the first sentinel in the order of precedence that the error wraps, if any. All events
  -- carry the one identifier, which is not empty.
  pub verify-IsTrace :
      (reg : Registry) (chain : Caip2) (msg sig : Bytes) (opts : VerifyOpts) (bytes : Bytes)
      → All (VerifierLaws sig) reg
      → random ≡ some bytes
      → bytes ≢ []
      → IsTrace wall bytes reg chain msg sig opts (verify wall random reg chain msg sig opts)
  unfolding verify
  verify-IsTrace reg chain msg sig opts bytes laws h ne =
      let (set, a) = defaults-AreSet wall random bytes h ne opts in
      let t = dispatch-Routed reg chain msg sig laws set a.observed a.timed in
      record { set = set; completed = a.completed; routed = rw a.are t }
