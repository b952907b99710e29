-- ===== src/Siwx/Checks/Returned.antt =====
-- The runs of checks that succeed.
use siwx_go.Base.{true, false, Option, none, some, ◌≡◌, ◌≢◌, refl}
use siwx_go.Siwx.Checks.{conclude}
use siwx_go.Siwx.Errors.{Error, returned, failed, crashed}
use siwx_go.Siwx.Observer.{CheckName, check_result}
use siwx_go.Siwx.Registry.Trace.{emit_given}
use siwx_go.Siwx.Verifier.{nil, VerifyOpts, Identity, Run, ◌then_do◌}

pub failed_not : {A : Type 0} {e : Error} {a : A} → ¬ (failed e ≡ returned a)
failed_not h = cc

pub crashed_not : {A : Type 0} {a : A} → ¬ (crashed ≡ returned a)
crashed_not h = cc

pub returned_inj : {A : Type 0} {a b : A} → returned a ≡ returned b → a ≡ b
returned_inj h = cc

module _ (opts : VerifyOpts) (given : opts.observer ≢ nil) (i : Identity) where
  pub conclude-returned :
      (c : CheckName) (found : Option Error) (k : Unit {0} → Run Identity)
      → (conclude opts c found then_do k).outcome ≡ returned i
      → (found ≡ none) × ((k tt).outcome ≡ returned i)
  unfolding conclude
  conclude-returned c none k h =
      (refl, rw (emit_given opts.observer (check_result opts.attempt_id c true) given) at h)
  conclude-returned c (some x) k h =
      absurd (
        failed_not
          (rw (emit_given opts.observer (check_result opts.attempt_id c false) given) at h))

  pub returned-conclude :
      (c : CheckName) (found : Option Error) (k : Unit {0} → Run Identity)
      → found ≡ none
      → (k tt).outcome ≡ returned i
      → (conclude opts c found then_do k).outcome ≡ returned i
  unfolding conclude
  returned-conclude c found k e h =
      rw (e, emit_given opts.observer (check_result opts.attempt_id c true) given) h
