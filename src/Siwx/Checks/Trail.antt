-- ===== src/Siwx/Checks/Trail.antt =====
-- The events of a run of checks.
use siwx_go.Base.{
  ℕ, List, [], ◌∷◌, ◌++◌, map, All, All-append, Bytes, true, false, Option, none, some, ◌≡◌, ◌≢◌,
  refl, equal_refl,
}
use siwx_go.Siwx.Checks.{conclude, read_clock}
use siwx_go.Siwx.Errors.{Error, returned, failed, crashed}
use siwx_go.Siwx.Observer.{CheckName, Event, check_result}
use siwx_go.Siwx.Registry.Trace.{is_inner, emit_given}
use siwx_go.Siwx.Verifier.{Clock, nil, VerifyOpts, Identity, Run, ◌then_do◌, finish}

abbrev pub passes : Bytes → List CheckName → List Event
passes id cs = map (λ c. check_result id c true) cs

-- Either every check has passed and the run returns, or the run fails behind the first check that
-- does not pass, and emits nothing after it.
pub data IsTrail (id : Bytes) (names : List CheckName) (run : Run Identity) : Type 0 where
  complete :
      (i : Identity)
      → run ≡ record { events = passes id names; outcome = returned i }
      → IsTrail id names run
  stopped :
      (earlier : List CheckName) (c : CheckName) (later : List CheckName) (e : Error)
      → names ≡ earlier ++ c ∷ later
      → run
        ≡ record { events = passes id earlier ++ check_result id c false ∷ []; outcome = failed e }
      → IsTrail id names run

abbrev pub check_order : List CheckName
check_order =
    CheckName.domain ∷ CheckName.not_before ∷ CheckName.expiry ∷ CheckName.nonce
    ∷ CheckName.signature ∷ []

pub read_clock-some :
    (o : Option Clock) (clock : Clock) (n : ℕ)
    → o ≡ some clock
    → read_clock o n ≡ finish (returned (clock n))
unfolding read_clock
read_clock-some o clock n h = rw h

module _ (opts : VerifyOpts) (given : opts.observer ≢ nil) where
  IsTrail-passed :
      (c : CheckName) (names : List CheckName) (r : Run Identity)
      → IsTrail opts.attempt_id names r
      → IsTrail opts.attempt_id
          (c ∷ names)
          (record { events = check_result opts.attempt_id c true ∷ r.events; outcome = r.outcome })
  IsTrail-passed c names r (complete i e) = complete i (λ j. record {
    events = check_result opts.attempt_id c true ∷ (e j).events;
    outcome = (e j).outcome;
  })
  IsTrail-passed c names r (stopped earlier d later x n e) =
      stopped (c ∷ earlier) d later x (λ j. c ∷ n j)
        (λ j. record {
          events = check_result opts.attempt_id c true ∷ (e j).events;
          outcome = (e j).outcome;
        })

  pub IsTrail-step :
      (c : CheckName) (found : Option Error) (names : List CheckName) (k : Unit {0} → Run Identity)
      → IsTrail opts.attempt_id names (k tt)
      → IsTrail opts.attempt_id (c ∷ names) (conclude opts c found then_do k)
  unfolding conclude
  IsTrail-step c none names k t =
      rw (emit_given opts.observer _ given) (IsTrail-passed c names (k tt) t)
  IsTrail-step c (some x) names k t =
      rw (emit_given opts.observer _ given) (stopped [] c names x refl refl)

-- What the laws of a verifier say of one run.
pub record IsTame (id : Bytes) (run : Run Identity) : Type 0 where
  pub inner : All (λ e. is_inner id e ≡ true) run.events
  pub returns : run.outcome ≢ crashed

passes-inner : (id : Bytes) (cs : List CheckName) → All (λ e. is_inner id e ≡ true) (passes id cs)
passes-inner id [] = tt
passes-inner id (c ∷ cs) = (equal_refl id, passes-inner id cs)

pub Trail-IsTame :
    (id : Bytes) (names : List CheckName) (r : Run Identity) → IsTrail id names r → IsTame id r
Trail-IsTame id names r (complete i e) =
    rw e (record { inner = passes-inner id names; returns = λ h. cc })
Trail-IsTame id names r (stopped earlier c later x n e) = rw e (record {
  inner =
      All-append _ (passes id earlier) (check_result id c false ∷ []) (passes-inner id earlier)
        (equal_refl id, tt);
  returns = λ h. cc;
})

pub framed :
    (id : Bytes) (e : Event) (r : Run Identity)
    → is_inner id e ≡ true
    → IsTame id r
    → IsTame id (record { events = e ∷ r.events; outcome = r.outcome })
framed id e r h t = record { inner = (h, t.inner); returns = t.returns }
