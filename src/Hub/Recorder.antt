-- ===== src/Hub/Recorder.antt =====
-- examples/hub/observe.go: the `Recorder`, as an observer with the buffer that the verify handler
-- drains, and its counters. The log and the durations are not modelled. A method holds the lock while
-- it touches the buffer, and a counter is raised by `LoadOrStore` and `Add`, so each is one step.
pub mod Bound
pub mod Failures
use siwx_go.Base.{
  ℕ, ◌+◌, ◌*◌, ◌^◌, List, [], ◌∷◌, ◌++◌, Bytes, codes, Bool, true, false, Option, none, some,
  if◌then◌else◌, ltb, length,
}
use siwx_go.Go.Maps.{lookup, delete, insert}
use siwx_go.Siwx.Errors.{error_text}
use siwx_go.Siwx.Observer.{
  CheckName, Terminal, no_error, other, known, Event, verify_attempt, parse_result, check_result,
  verify_result,
}

-- `CheckInfo`, without its duration.
pub record CheckInfo : Type 0 where
  pub name : Bytes
  pub passed : Bool

pub record Recorder : Type 0 where
  pub attempts_total : ℕ
  -- by the text of the sentinel; errors that are none are counted together
  pub failures_total : List (Bytes × ℕ)
  pub other_failures : ℕ
  pub checks_total : List (Bytes × ℕ)
  pub checks : List (Bytes × List CheckInfo)

abbrev pub max_attempts : ℕ
max_attempts = 2 ^ 10

-- `string(e.Check)`
abbrev check_text : CheckName → Bytes
check_text CheckName.domain = codes "domain"
check_text CheckName.not_before = codes "not_before"
check_text CheckName.expiry = codes "expiry"
check_text CheckName.nonce = codes "nonce"
check_text CheckName.signature = codes "signature"

-- A missing key reads as the zero value.
abbrev pub or_zero : Option ℕ → ℕ
or_zero none = 0
or_zero (some n) = n

abbrev pub or_empty : Option (List CheckInfo) → List CheckInfo
or_empty none = []
or_empty (some cs) = cs

-- `incFailure`
inc_failure : Terminal → Recorder → Recorder
unfolding error_text
inc_failure no_error r = r
inc_failure other r = record r { other_failures = r.other_failures + 1 }
inc_failure (known s) r = record r {
  failures_total =
      insert r.failures_total (error_text s) (or_zero (lookup r.failures_total (error_text s)) + 1);
}

-- `incCheckFailed`
inc_check_failed : Bytes → List (Bytes × ℕ) → List (Bytes × ℕ)
inc_check_failed check m = insert m check (or_zero (lookup m check) + 1)

-- `DrainChecks`
unfoldable pub drain_checks : Bytes → Recorder → List CheckInfo × Recorder
drain_checks id r = (or_empty (lookup r.checks id), record r { checks = delete r.checks id })

-- What `OnCheckResult` does to the buffer.
unfoldable pub buffer_check :
    Bytes → CheckName → Bool → List (Bytes × List CheckInfo) → List (Bytes × List CheckInfo)
buffer_check id check passed m =
    if ltb (length m) max_attempts
    then insert m id
        (or_empty (lookup m id) ++ record { name = check_text check; passed = passed } ∷ [])
    else m

-- The four callbacks.
unfoldable pub on_event : Event → Recorder → Recorder
unfolding buffer_check inc_check_failed inc_failure
on_event (verify_attempt _ _ _ _) r = record r { attempts_total = r.attempts_total + 1 }
on_event (parse_result _ _ _ _) r = r
on_event (check_result id check passed) r = record r {
  checks_total =
      if passed then r.checks_total else inc_check_failed (check_text check) r.checks_total;
  checks = buffer_check id check passed r.checks;
}
on_event (verify_result _ passed error_is _) r = if passed then r else inc_failure error_is r
