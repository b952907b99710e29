-- ===== src/Siwx/Verifier.antt =====
-- siwx/verifier.go. A verification reads a clock and calls an observer: its run is the sequence of
-- the calls that it makes to `opts.Observer` and what it comes to. The context is passed on only.
use siwx_go.Base.{ℕ, List, [], ◌∷◌, ◌++◌, Bytes, Option}
use siwx_go.Siwx.Caip.{Caip10}
use siwx_go.Siwx.Errors.{Outcome, returned, failed, crashed}
use siwx_go.Siwx.Observer.{Event}

-- A clock, as the instants that its successive readings give.
abbrev pub Clock : Type 0
Clock = ℕ → ℕ

-- What stands in the field `Observer`: `nil`, or an observer that takes the calls.
pub data ObserverField : Type 0 where
  nil nop_observer : ObserverField
  observer : ℕ → ObserverField

pub record VerifyOpts : Type 0 where
  pub expected_domain : Bytes
  pub expected_nonce : Bytes
  pub observer : ObserverField
  pub clock : Option Clock
  pub attempt_id : Bytes

pub record Identity : Type 0 where
  pub account : Caip10
  pub domain : Bytes
  pub nonce : Bytes
  pub issued_at : ℕ
  pub expires_at : Option ℕ

pub record Run {ℓ} (A : Type ℓ) : Type ℓ where
  pub events : List Event
  pub outcome : Outcome A

-- One thing after the other.
infixl 5 ◌then_do◌
abbrev pub ◌then_do◌ {ℓ κ} : {A : Type ℓ} {B : Type κ} → Run A → (A → Run B) → Run B
r then_do f = elim r.outcome [
  | returned a ↦
      let next = f a in record { events = r.events ++ next.events; outcome = next.outcome }
  | failed e ↦ record { events = r.events; outcome = failed e }
  | crashed ↦ record { events = r.events; outcome = crashed }
]

abbrev pub finish {ℓ} : {A : Type ℓ} → Outcome A → Run A
finish o = record { events = []; outcome = o }

-- A call of the observer; on `nil` it is a nil dereference.
unfoldable pub emit : ObserverField → Event → Run (Unit {0})
emit nil e = finish crashed
emit nop_observer e = record { events = e ∷ []; outcome = returned tt }
emit (observer _) e = record { events = e ∷ []; outcome = returned tt }

-- The interface `Verifier`.
pub record Verifier : Type 0 where
  pub namespace : Bytes
  pub verify : Bytes → Bytes → VerifyOpts → Run Identity
