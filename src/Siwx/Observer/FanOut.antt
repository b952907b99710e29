-- ===== src/Siwx/Observer/FanOut.antt =====
-- siwx/observer.go: the fan-out against each observer alone.
use siwx_go.Base.{List, [], ◌∷◌, map, ◌≡◌, refl, ap, ◌∙◌}
use siwx_go.Siwx.Observer.{
  Event, verify_attempt, parse_result, check_result, verify_result, Ended, returned, panicking,
  Observer, safe_call, go_on, multi_verify_attempt, multi_parse_result, multi_check_result,
  multi_verify_result, fan_out, fan_out_all,
}

module _ {S : Type 0} where
  left_by : Ended S → S
  left_by (returned s) = s
  left_by (panicking s) = s

  -- The state that the observer's own method leaves, whether it returns or panics.
  reaction : Event → Observer S → S
  unfolding left_by
  reaction (verify_attempt id ns d a) o = left_by (o.on_verify_attempt id ns d a o.state)
  reaction (parse_result id passed e n) o = left_by (o.on_parse_result id passed e n o.state)
  reaction (check_result id check passed) o = left_by (o.on_check_result id check passed o.state)
  reaction (verify_result id passed e ns) o = left_by (o.on_verify_result id passed e ns o.state)

  reacted : Event → Observer S → Observer S
  reacted e o = record o { state = reaction e o }

  -- One observer that gets the events directly, and goes on after its panics.
  pub alone : List Event → Observer S → Observer S
  alone [] o = o
  alone (e ∷ es) o = alone es (reacted e o)

  -- A recovered call leaves the state of the call, and the loop goes on.
  go_on-safe_call :
      (o : Observer S) (os : List (Observer S)) (ending : Ended S)
      {rest : Ended (List (Observer S))} {ms : List (Observer S)}
      → rest ≡ returned ms
      → go_on o os (safe_call ending) rest ≡ returned (record o { state = left_by ending } ∷ ms)
  unfolding safe_call left_by
  go_on-safe_call o os (returned s) h = ap (go_on o os (returned s)) h
  go_on-safe_call o os (panicking s) h = ap (go_on o os (returned s)) h

  fan_out-map : (e : Event) (os : List (Observer S)) → fan_out e os ≡ returned (map (reacted e) os)
  unfolding multi_verify_attempt multi_parse_result multi_check_result multi_verify_result reacted
      reaction
  fan_out-map (verify_attempt id ns d a) [] = refl
  fan_out-map (parse_result id passed e n) [] = refl
  fan_out-map (check_result id check passed) [] = refl
  fan_out-map (verify_result id passed e ns) [] = refl
  fan_out-map (verify_attempt id ns d a) (o ∷ os) =
      go_on-safe_call o os (o.on_verify_attempt id ns d a o.state)
        (fan_out-map (verify_attempt id ns d a) os)
  fan_out-map (parse_result id passed e n) (o ∷ os) =
      go_on-safe_call o os (o.on_parse_result id passed e n o.state)
        (fan_out-map (parse_result id passed e n) os)
  fan_out-map (check_result id check passed) (o ∷ os) =
      go_on-safe_call o os (o.on_check_result id check passed o.state)
        (fan_out-map (check_result id check passed) os)
  fan_out-map (verify_result id passed e ns) (o ∷ os) =
      go_on-safe_call o os (o.on_verify_result id passed e ns o.state)
        (fan_out-map (verify_result id passed e ns) os)

  map-alone_nil : (os : List (Observer S)) → os ≡ map (alone []) os
  unfolding alone
  map-alone_nil [] = refl
  map-alone_nil (o ∷ os) = ap (λ t. o ∷ t) (map-alone_nil os)

  map-alone_cons :
      (e : Event) (es : List Event) (os : List (Observer S))
      → map (alone es) (map (reacted e) os) ≡ map (alone (e ∷ es)) os
  unfolding alone
  map-alone_cons e es [] = refl
  map-alone_cons e es (o ∷ os) = ap (λ t. alone es (reacted e o) ∷ t) (map-alone_cons e es os)

  -- On any events, no panic of an observer gets through the methods of `MultiObserver`, and each
  -- observer is left in the state to which its own methods, called with these events in their order,
  -- bring it alone, panics included, whatever the others do.
  pub fan_out_alone :
      (es : List Event) (os : List (Observer S)) → fan_out_all es os ≡ returned (map (alone es) os)
  unfolding fan_out_all
  fan_out_alone [] os = ap returned (map-alone_nil os)
  fan_out_alone (e ∷ es) os =
      rw (fan_out_all, fan_out-map e os)
        (fan_out_alone es (map (reacted e) os) ∙ ap returned (map-alone_cons e es os))
