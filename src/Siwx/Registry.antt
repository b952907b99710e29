-- ===== src/Siwx/Registry.antt =====
-- siwx/registry.go. The map is a list with one verifier for a namespace; the lock is not modelled: a
-- call of `Register` or `Verify` reads or writes the map in one step.
pub mod Lookup
pub mod Reports
pub mod Defaults
pub mod Trace
pub mod Dispatch
use siwx_go.Base.{
  ℕ, ◌+◌, ◌-◌, ◌/◌, ◌%◌, List, [], ◌∷◌, ◌++◌, Bytes, Bool, true, false, Option, none, some,
  if◌then◌else◌, equal, ltb,
}
use siwx_go.Go.Hex.{hex_encode}
use siwx_go.Siwx.Caip.{Caip2}
use siwx_go.Siwx.Errors.{Sentinel, Error, is, Outcome, returned, failed, crashed}
use siwx_go.Siwx.Observer.{Terminal, known, no_error, other, Event, verify_attempt, verify_result}
use siwx_go.Siwx.Verifier.{
  Clock, ObserverField, nil, nop_observer, VerifyOpts, Identity, Run, ◌then_do◌, finish, emit,
  Verifier,
}

abbrev pub Registry : Type 0
Registry = List Verifier

-- `verifiers[ns]`
unfoldable pub find : Registry → Bytes → Option Verifier
find [] ns = none
find (v ∷ vs) ns = if equal v.namespace ns then some v else find vs ns

-- `Register`
unfoldable pub register : Registry → Verifier → Registry
register [] v = v ∷ []
register (w ∷ vs) v = if equal w.namespace v.namespace then v ∷ vs else w ∷ register vs v

abbrev sentinels : List Sentinel
sentinels =
    Sentinel.malformed ∷ Sentinel.bad_signature ∷ Sentinel.expired ∷ Sentinel.not_yet_valid
    ∷ Sentinel.domain_mismatch ∷ Sentinel.nonce_mismatch ∷ Sentinel.unsupported_namespace
    ∷ Sentinel.contract_validation_failed ∷ Sentinel.contract_wallet_unsupported ∷ Sentinel.rpc ∷ []

first_of : List Sentinel → Error → Terminal
unfolding is
first_of [] e = other
first_of (s ∷ ss) e = if is e s then known s else first_of ss e

-- `sentinelFor`, on an error that is not `nil`.
unfoldable pub sentinel_for : Error → Terminal
unfolding first_of is
sentinel_for e = first_of sentinels e

abbrev pub observer_or_nop : ObserverField → ObserverField
observer_or_nop nil = nop_observer
observer_or_nop o = o

abbrev pub clock_or_real : Clock → Option Clock → Option Clock
clock_or_real wall none = some wall
clock_or_real wall (some c) = some c

-- The system's clock, and the 16 bytes that `rand.Read` gives, or `none` where it fails.
module _ (wall : Clock) (random : Option Bytes) where
  -- `newAttemptID`
  unfoldable pub new_attempt_id : Run Bytes
  unfolding hex_encode
  new_attempt_id = elim random [ none ↦ finish crashed | some b ↦ finish (returned (hex_encode b)) ]

  -- The defaults at the top of `Verify`.
  unfoldable pub with_defaults : VerifyOpts → Run VerifyOpts
  unfolding new_attempt_id
  with_defaults opts =
      let o = observer_or_nop opts.observer in
      let c = clock_or_real wall opts.clock in
      (if equal opts.attempt_id [] then new_attempt_id else finish (returned opts.attempt_id))
      then_do λ id. finish (returned (record opts { observer = o; clock = c; attempt_id = id }))

  -- More events behind those of a run, and then its outcome.
  abbrev after : List Event → Run (Unit {0}) → Outcome Identity → Run Identity
  after es last o =
      let r = last then_do (λ _. finish o) in
      record { events = es ++ r.events; outcome = r.outcome }

  -- The last event of a run, and its result.
  unfoldable pub report : VerifyOpts → Bytes → Run Identity → Run Identity
  unfolding emit sentinel_for
  report opts ns r = elim r.outcome [
    | returned id ↦
        after r.events (emit opts.observer (verify_result opts.attempt_id true no_error ns))
          (returned id)
    | failed e ↦
        after r.events
          (emit opts.observer (verify_result opts.attempt_id false (sentinel_for e) ns)) (failed e)
    | crashed ↦ record { events = r.events; outcome = crashed }
  ]

  -- What follows the defaults.
  unfoldable pub dispatch : Registry → Caip2 → Bytes → Bytes → VerifyOpts → Run Identity
  unfolding emit find report
  dispatch reg chain msg sig opts =
      emit opts.observer (verify_attempt opts.attempt_id chain.namespace opts.expected_domain [])
      then_do λ _. elim (find reg chain.namespace) [
        | none ↦
            after []
              (emit opts.observer (
                verify_result opts.attempt_id false (known Sentinel.unsupported_namespace)
                  chain.namespace))
              (failed (Sentinel.unsupported_namespace ∷ []))
        | some v ↦ report opts chain.namespace (v.verify msg sig opts)
      ]

  -- `func (r *registry) Verify`
  unfoldable pub verify : Registry → Caip2 → Bytes → Bytes → VerifyOpts → Run Identity
  unfolding with_defaults dispatch
  verify reg chain msg sig opts = with_defaults opts then_do λ opts. dispatch reg chain msg sig opts
