-- ===== src/Siwx/Observer.antt =====
-- siwx/observer.go: the events of a verification, and the fan-out to several observers. The
-- durations that events carry are not modelled.
pub mod FanOut
use siwx_go.Base.{ℕ, List, [], ◌∷◌, Bytes, Bool, Option}
use siwx_go.Siwx.Errors.{Sentinel}

pub data CheckName : Type 0 where
  domain not_before expiry nonce signature : CheckName

-- What a `VerifyResult` says of its error: none, a sentinel, or some other error.
pub data Terminal : Type 0 where
  no_error other : Terminal
  known : Sentinel → Terminal

-- `VerifyAttempt`, `ParseResult`, `CheckResult` and `VerifyResult`.
pub data Event : Type 0 where
  verify_attempt : (attempt_id namespace domain account : Bytes) → Event
  parse_result :
      (attempt_id : Bytes) (passed : Bool) (error_is : Option Sentinel) (msg_bytes : ℕ) → Event
  check_result : (attempt_id : Bytes) (check : CheckName) (passed : Bool) → Event
  verify_result :
      (attempt_id : Bytes) (passed : Bool) (error_is : Terminal) (namespace : Bytes) → Event

-- How a callback ends: it returns, or panics, with the state that it has left behind.
pub data Ended (S : Type 0) : Type 0 where
  returned panicking : S → Ended S

-- An observer: the four methods of the interface, and the state that they work on.
pub record Observer (S : Type 0) : Type 0 where
  pub on_verify_attempt : (attempt_id namespace domain account : Bytes) → S → Ended S
  pub on_parse_result :
      (attempt_id : Bytes) (passed : Bool) (error_is : Option Sentinel) (msg_bytes : ℕ)
      → S
      → Ended S
  pub on_check_result : (attempt_id : Bytes) (check : CheckName) (passed : Bool) → S → Ended S
  pub on_verify_result :
      (attempt_id : Bytes) (passed : Bool) (error_is : Terminal) (namespace : Bytes) → S → Ended S
  pub state : S

-- `safeCall`: the deferred `recover` ends a panic of the call.
unfoldable pub safe_call : {S : Type 0} → Ended S → Ended S
safe_call (returned s) = returned s
safe_call (panicking s) = returned s

module _ {S : Type 0} where
  -- A step of a loop: what a call for `o` comes to, and what the loop comes to on the observers behind
  -- it, which a panic leaves as they are.
  abbrev go_on :
      Observer S
      → List (Observer S)
      → Ended S
      → Ended (List (Observer S))
      → Ended (List (Observer S))
  go_on o os (panicking s) rest = panicking (record o { state = s } ∷ os)
  go_on o os (returned s) (returned os') = returned (record o { state = s } ∷ os')
  go_on o os (returned s) (panicking os') = panicking (record o { state = s } ∷ os')

  -- The methods of `multiObserver`; the observers stand in the order of the call.
  unfoldable pub multi_verify_attempt :
      (attempt_id namespace domain account : Bytes) → List (Observer S) → Ended (List (Observer S))
  unfolding safe_call
  multi_verify_attempt id ns d a [] = returned []
  multi_verify_attempt id ns d a (o ∷ os) =
      go_on o os (safe_call (o.on_verify_attempt id ns d a o.state))
        (multi_verify_attempt id ns d a os)

  unfoldable pub multi_parse_result :
      (attempt_id : Bytes) (passed : Bool) (error_is : Option Sentinel) (msg_bytes : ℕ)
      → List (Observer S)
      → Ended (List (Observer S))
  unfolding safe_call
  multi_parse_result id passed e n [] = returned []
  multi_parse_result id passed e n (o ∷ os) =
      go_on o os (safe_call (o.on_parse_result id passed e n o.state))
        (multi_parse_result id passed e n os)

  unfoldable pub multi_check_result :
      (attempt_id : Bytes) (check : CheckName) (passed : Bool)
      → List (Observer S)
      → Ended (List (Observer S))
  unfolding safe_call
  multi_check_result id check passed [] = returned []
  multi_check_result id check passed (o ∷ os) =
      go_on o os (safe_call (o.on_check_result id check passed o.state))
        (multi_check_result id check passed os)

  unfoldable pub multi_verify_result :
      (attempt_id : Bytes) (passed : Bool) (error_is : Terminal) (namespace : Bytes)
      → List (Observer S)
      → Ended (List (Observer S))
  unfolding safe_call
  multi_verify_result id passed e ns [] = returned []
  multi_verify_result id passed e ns (o ∷ os) =
      go_on o os (safe_call (o.on_verify_result id passed e ns o.state))
        (multi_verify_result id passed e ns os)

  -- The method that an event is sent to.
  abbrev pub fan_out : Event → List (Observer S) → Ended (List (Observer S))
  fan_out (verify_attempt id ns d a) os = multi_verify_attempt id ns d a os
  fan_out (parse_result id passed e n) os = multi_parse_result id passed e n os
  fan_out (check_result id check passed) os = multi_check_result id check passed os
  fan_out (verify_result id passed e ns) os = multi_verify_result id passed e ns os

  -- The events of a run, one after the other; a panic that a method lets through ends the run.
  unfoldable pub fan_out_all : List Event → List (Observer S) → Ended (List (Observer S))
  fan_out_all [] os = returned os
  fan_out_all (e ∷ es) os = elim (fan_out e os) [
    | returned os' ↦ fan_out_all es os'
    | panicking os' ↦ panicking os'
  ]
