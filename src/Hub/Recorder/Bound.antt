-- ===== src/Hub/Recorder/Bound.antt =====
-- examples/hub/observe.go: the size of the buffer of checks.
use siwx_go.Base.{
  ◌≤◌, List, [], ◌∷◌, Bytes, Bool, true, false, if◌then◌else◌, ltb, length, equal, ◌≡◌, refl, arith,
  ◌∙◌, Bool-cases, inl, inr, le→ltb-false, ltb→lt,
}
use siwx_go.Go.Maps.{lookup, delete}
use siwx_go.Siwx.Observer.{
  CheckName, Terminal, Event, verify_attempt, parse_result, check_result, verify_result,
}
use siwx_go.Hub.Recorder.{
  Recorder, CheckInfo, max_attempts, inc_failure, drain_checks, buffer_check, on_event, or_empty,
}

pub length-delete {ℓ} :
    {V : Type ℓ} (m : List (Bytes × V)) (k : Bytes) → length (delete m k) ≤ length m
unfolding delete
length-delete [] k = omega arith
length-delete ((h, v) ∷ m) k = elim (Bool-cases (equal h k)) [
  | inl e ↦ rw e (omega (arith, length-delete m k))
  | inr e ↦ rw e (omega (arith, length-delete m k))
]

length-buffer_check :
    (id : Bytes) (c : CheckName) (p : Bool) (m : List (Bytes × List CheckInfo))
    → length m ≤ max_attempts
    → length (buffer_check id c p m) ≤ max_attempts
unfolding buffer_check
length-buffer_check id c p m h = elim (Bool-cases (ltb (length m) max_attempts)) [
  | inl e ↦ rw e (omega (arith, length-delete m id, ltb→lt (length m) max_attempts e))
  | inr e ↦ rw e h
]

-- What is done to a recorder: it observes an event, or the handler drains an attempt.
pub data Use : Type 0 where
  observes : Event → Use
  drains : Bytes → Use

abbrev pub used : List Use → Recorder → Recorder
used [] r = r
used (observes e ∷ us) r = used us (on_event e r)
used (drains id ∷ us) r = used us (drain_checks id r).1

verify_result-checks :
    (p : Bool) (t : Terminal) (r : Recorder) → (if p then r else inc_failure t r).checks ≡ r.checks
unfolding inc_failure
verify_result-checks true t r = refl
verify_result-checks false Terminal.no_error r = refl
verify_result-checks false Terminal.other r = refl
verify_result-checks false (Terminal.known s) r = refl

use_keeps :
    (e : Event) (r : Recorder)
    → length r.checks ≤ max_attempts
    → length (on_event e r).checks ≤ max_attempts
unfolding on_event
use_keeps (verify_attempt _ _ _ _) r h = h
use_keeps (parse_result _ _ _ _) r h = h
use_keeps (check_result id c p) r h = length-buffer_check id c p r.checks h
use_keeps (verify_result _ p t _) r h = rw (verify_result-checks p t r) h

-- The buffer holds 1024 attempts at most, whatever is observed and drained.
pub checks_bounded :
    (us : List Use) (r : Recorder)
    → length r.checks ≤ max_attempts
    → length (used us r).checks ≤ max_attempts
unfolding drain_checks
checks_bounded [] r h = h
checks_bounded (observes e ∷ us) r h = checks_bounded us (on_event e r) (use_keeps e r h)
checks_bounded (drains id ∷ us) r h =
    checks_bounded us (drain_checks id r).1 (omega (arith, length-delete r.checks id))

abbrev pub observed : List Event → Recorder → Recorder
observed [] r = r
observed (e ∷ es) r = observed es (on_event e r)

full_keeps :
    (e : Event) (r : Recorder) → max_attempts ≤ length r.checks → (on_event e r).checks ≡ r.checks
unfolding on_event buffer_check
full_keeps (verify_attempt _ _ _ _) r h = refl
full_keeps (parse_result _ _ _ _) r h = refl
full_keeps (check_result id c p) r h = rw (le→ltb-false (length r.checks) max_attempts h)
full_keeps (verify_result _ p t _) r h = verify_result-checks p t r

-- While 1024 attempts stand in the buffer and none is drained, the checks of every attempt are
-- dropped: whatever is observed, `DrainChecks` returns what it would have returned before.
pub full_drops :
    (es : List Event) (r : Recorder) (id : Bytes)
    → max_attempts ≤ length r.checks
    → (drain_checks id (observed es r)).0 ≡ (drain_checks id r).0
unfolding drain_checks
full_drops [] r id h = refl
full_drops (e ∷ es) r id h =
    let same = full_keeps e r h in
    full_drops es (on_event e r) id (rw same h) ∙ (λ i. or_empty (lookup (same i) id))
