-- ===== src/Hub/Recorder/Failures.antt =====
-- examples/hub/observe.go: what the counters count.
use siwx_go.Base.{
  ℕ, ◌+◌, ◌<◌, List, [], ◌∷◌, Bool, true, false, ◌==◌, if◌then◌else◌, equal, equal_iff, all_below,
  all_below_sound, ◌≡◌, refl, sym, arith, Bool-cases, inl, inr, not,
}
use siwx_go.Go.Maps.{lookup, lookup-delete_other}
use siwx_go.Siwx.Errors.{Sentinel, error_text, address}
use siwx_go.Siwx.Observer.{
  no_error, other, known, Event, verify_attempt, parse_result, check_result, verify_result,
}
use siwx_go.Hub.Recorder.{Recorder, inc_failure, on_event, or_zero}
use siwx_go.Hub.Recorder.Bound.{observed}

-- The sentinels by their addresses.
at_address : ℕ → Sentinel
at_address n =
    if n == 0
    then Sentinel.malformed
    else if n == 1
    then Sentinel.bad_signature
    else if n == 2
    then Sentinel.expired
    else if n == 3
    then Sentinel.not_yet_valid
    else if n == 4
    then Sentinel.domain_mismatch
    else if n == 5
    then Sentinel.nonce_mismatch
    else if n == 6
    then Sentinel.unsupported_namespace
    else if n == 7
    then Sentinel.contract_validation_failed
    else if n == 8
    then Sentinel.contract_wallet_unsupported
    else Sentinel.rpc

at_address_of : (s : Sentinel) → (at_address (address s) ≡ s) × (address s < 10)
unfolding at_address
at_address_of Sentinel.malformed = (refl, omega arith)
at_address_of Sentinel.bad_signature = (refl, omega arith)
at_address_of Sentinel.expired = (refl, omega arith)
at_address_of Sentinel.not_yet_valid = (refl, omega arith)
at_address_of Sentinel.domain_mismatch = (refl, omega arith)
at_address_of Sentinel.nonce_mismatch = (refl, omega arith)
at_address_of Sentinel.unsupported_namespace = (refl, omega arith)
at_address_of Sentinel.contract_validation_failed = (refl, omega arith)
at_address_of Sentinel.contract_wallet_unsupported = (refl, omega arith)
at_address_of Sentinel.rpc = (refl, omega arith)

same_bool : Bool → Bool → Bool
same_bool true b = b
same_bool false b = not b

same_bool_iff : (a b : Bool) → same_bool a b ≡ true → a ≡ b
unfolding same_bool
same_bool_iff true b h = sym h
same_bool_iff false true h = cc
same_bool_iff false false h = refl

texts_apart :
    all_below 10 (λ a. all_below 10 (λ b.
      same_bool
        (equal (error_text (at_address a)) (error_text (at_address b)))
        (address (at_address a) == address (at_address b))))
    ≡ true
unfolding all_below same_bool equal error_text at_address
texts_apart = refl

-- Two sentinels have the same text only if they are the same.
error_text_apart : (s t : Sentinel) → equal (error_text s) (error_text t) ≡ (address s == address t)
error_text_apart s t =
    let (es, ls) = at_address_of s in
    let (et, lt) = at_address_of t in
    let row = all_below_sound _ 10 texts_apart (address s) ls in
    let cell = same_bool_iff _ _ (all_below_sound _ 10 row (address t) lt) in rw (es, et) at cell

-- One for a result that has failed with this sentinel.
abbrev pub is_failure : Sentinel → Event → ℕ
is_failure s (verify_result _ false (known t) _) = if address t == address s then 1 else 0
is_failure s (verify_result _ false _ _) = 0
is_failure s (verify_result _ true _ _) = 0
is_failure s _ = 0

abbrev pub failures_of : Sentinel → List Event → ℕ
failures_of s [] = 0
failures_of s (e ∷ es) = is_failure s e + failures_of s es

-- What stands in the counter.
abbrev pub counter_of : Sentinel → Recorder → ℕ
counter_of s r = or_zero (lookup r.failures_total (error_text s))

counter_of-inc_failure :
    (s t : Sentinel) (r : Recorder)
    → counter_of s (inc_failure (known t) r)
      ≡ (if address t == address s then 1 else 0) + counter_of s r
unfolding inc_failure lookup
counter_of-inc_failure s t r = elim (Bool-cases (equal (error_text t) (error_text s))) [
  | inl e ↦
      let same : error_text t ≡ error_text s = (equal_iff (error_text t) (error_text s)).0 e in
      rw (← error_text_apart t s, e, same) (omega arith)
  | inr e ↦
      rw
        (
          ← error_text_apart t s,
          e,
          lookup-delete_other r.failures_total (error_text t) (error_text s) e,
        )
        (omega arith)
]

counter_of-on_event :
    (s : Sentinel) (e : Event) (r : Recorder)
    → counter_of s (on_event e r) ≡ is_failure s e + counter_of s r
unfolding on_event inc_failure
counter_of-on_event s (verify_attempt _ _ _ _) r = omega arith
counter_of-on_event s (parse_result _ _ _ _) r = omega arith
counter_of-on_event s (check_result _ _ _) r = omega arith
counter_of-on_event s (verify_result _ true _ _) r = omega arith
counter_of-on_event s (verify_result _ false no_error _) r = omega arith
counter_of-on_event s (verify_result _ false other _) r = omega arith
counter_of-on_event s (verify_result _ false (known t) _) r = counter_of-inc_failure s t r

-- After any events, the counter of a sentinel's text has gone up by the number of results that
-- failed with this sentinel, and by no other.
pub failures_counted :
    (es : List Event) (s : Sentinel) (r : Recorder)
    → counter_of s (observed es r) ≡ failures_of s es + counter_of s r
failures_counted [] s r = omega arith
failures_counted (e ∷ es) s r =
    omega (arith, failures_counted es s (on_event e r), counter_of-on_event s e r)
