-- ===== src/Tests/Recorder.antt =====
-- The recorder of the example server, empty and full.
use siwx_go.Base.{
  ℕ, zero, suc, ◌/◌, ◌%◌, ◌≤◌, List, [], ◌∷◌, Bytes, true, false, ◌+◌, length, ◌≡◌, refl, arith,
}
use siwx_go.Hub.Recorder.Bound.{Use, observes, drains, used, checks_bounded, observed, full_drops}
use siwx_go.Hub.Recorder.{Recorder, CheckInfo, max_attempts, drain_checks}
use siwx_go.Hub.Recorder.Failures.{counter_of, failures_of, failures_counted}
use siwx_go.Siwx.Errors.{Sentinel}
use siwx_go.Siwx.Observer.{CheckName, known, check_result, verify_result}

abbrev fresh : Recorder
fresh = record {
  attempts_total = 0;
  failures_total = [];
  other_failures = 0;
  checks_total = [];
  checks = [];
}

-- `n` attempts, each with an identifier of its own and no check.
abbrev filled : ℕ → List (Bytes × List CheckInfo)
filled zero = []
filled (suc n) = (n / 256 ∷ n % 256 ∷ [], []) ∷ filled n

length-filled : (n : ℕ) → length (filled n) ≡ n
length-filled zero = refl
length-filled (suc n) = omega (arith, length-filled n)

abbrev full : Recorder
full = record fresh { checks = filled max_attempts }

abbrev two_uses : List Use
two_uses = observes (check_result (7 ∷ []) CheckName.domain true) ∷ drains (7 ∷ []) ∷ []

checks_bounded_example : length (used two_uses fresh).checks ≤ max_attempts
checks_bounded_example = checks_bounded two_uses fresh (omega arith)

full_drops_example :
    (drain_checks (7 ∷ []) (observed (check_result (7 ∷ []) CheckName.domain true ∷ []) full)).0
    ≡ (drain_checks (7 ∷ []) full).0
full_drops_example =
    full_drops (check_result (7 ∷ []) CheckName.domain true ∷ []) full (7 ∷ [])
      (omega (arith, length-filled max_attempts))

failures_counted_example :
    counter_of Sentinel.rpc
      (observed (verify_result (7 ∷ []) false (known Sentinel.rpc) [] ∷ []) fresh)
    ≡ failures_of Sentinel.rpc (verify_result (7 ∷ []) false (known Sentinel.rpc) [] ∷ [])
      + counter_of Sentinel.rpc fresh
failures_counted_example =
    failures_counted (verify_result (7 ∷ []) false (known Sentinel.rpc) [] ∷ []) Sentinel.rpc fresh
