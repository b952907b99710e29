-- ===== src/Siwx/Evm/Trail.antt =====
-- siwx/evm/adapter.go: the loop over `checks`, with the signature.
use siwx_go.Base.{ℕ, List, [], ◌∷◌, ◌++◌, Bytes, true, Option, none, some, ◌≡◌, ◌≢◌, refl}
use siwx_go.Siwx.Checks.Trail.{IsTrail, complete, stopped, passes, check_order, IsTrail-step}
use siwx_go.Siwx.Checks.{conclude}
use siwx_go.Siwx.Errors.{Error, Outcome, returned, failed, crashed}
use siwx_go.Siwx.Registry.Trace.{emit_given}
use siwx_go.Siwx.Evm.Chain.{Resolver, Libs}
use siwx_go.Siwx.Evm.Signature.{verify_signature}
use siwx_go.Siwx.Evm.{
  domain_error, not_before_error, expiry_error, nonce_error, identity_of, conclude_signature,
  run_checks,
}
use siwx_go.Siwx.Observer.{CheckName, check_result}
use siwx_go.Siwx.Verifier.{nil, VerifyOpts, Identity, Run, ◌then_do◌, finish}

-- The run of the checks, where `verdict` is what the check of the signature comes to: a trail, or
-- every check in front of the signature has passed and the signature's own panics.
pub data IsEvmTrail (id : Bytes) (verdict : Outcome (Unit {0})) (names : List CheckName)
    (run : Run Identity) : Type 0 where
  trail : IsTrail id names run → IsEvmTrail id verdict names run
  panics :
      (earlier : List CheckName)
      → names ≡ earlier ++ CheckName.signature ∷ []
      → verdict ≡ crashed
      → run ≡ record { events = passes id earlier; outcome = crashed }
      → IsEvmTrail id verdict names run

pub IsTrail-of :
    (id : Bytes) (verdict : Outcome (Unit {0})) (names : List CheckName) (run : Run Identity)
    → IsEvmTrail id verdict names run
    → verdict ≢ crashed
    → IsTrail id names run
IsTrail-of id verdict names run (trail t) ne = t
IsTrail-of id verdict names run (panics earlier n v r) ne = absurd (ne v)

module _ (opts : VerifyOpts) (given : opts.observer ≢ nil) where
  IsEvmTrail-step :
      (verdict : Outcome (Unit {0})) (c : CheckName) (found : Option Error) (names : List CheckName)
      (k : Unit {0} → Run Identity)
      → IsEvmTrail opts.attempt_id verdict names (k tt)
      → IsEvmTrail opts.attempt_id verdict (c ∷ names) (conclude opts c found then_do k)
  unfolding conclude
  IsEvmTrail-step verdict c found names k (trail t) =
      trail (IsTrail-step opts given c found names k t)
  IsEvmTrail-step verdict c none names k (panics earlier n v r) =
      rw (emit_given opts.observer _ given) (
        panics (c ∷ earlier) (λ j. c ∷ n j) v
          (λ j. record {
            events = check_result opts.attempt_id c true ∷ (r j).events;
            outcome = (r j).outcome;
          }))
  IsEvmTrail-step verdict c (some x) names k (panics earlier n v r) =
      rw (emit_given opts.observer _ given) (trail (stopped [] c names x refl refl))

  IsEvmTrail-signature :
      (verdict : Outcome (Unit {0})) (i : Identity)
      → IsEvmTrail opts.attempt_id verdict
          (CheckName.signature ∷ [])
          (conclude_signature opts verdict then_do λ _. finish (returned i))
  unfolding conclude_signature
  IsEvmTrail-signature (returned _) i =
      trail (IsTrail-step opts given CheckName.signature none _ _ (complete i refl))
  IsEvmTrail-signature (failed e) i =
      trail (IsTrail-step opts given CheckName.signature (some e) _ _ (complete i refl))
  IsEvmTrail-signature crashed i = panics [] refl refl refl

module _ {M : Type 0} (lib : Libs M) (resolver : Option Resolver) (opts : VerifyOpts)
    (given : opts.observer ≢ nil) where
  -- The checks of a message that has been parsed come in the order domain, not before, expiry,
  -- nonce, signature, whichever way the signature is checked; the first that fails is the last event
  -- and decides that the call fails, and the call succeeds only when all five have passed. The one
  -- other end is a panic of the check of the signature, behind four checks that have passed. The
  -- options hold an observer.
  pub evm_checks-IsTrail :
      (parsed : M) (sig : Bytes) (now : ℕ)
      → IsEvmTrail opts.attempt_id
          (verify_signature lib resolver parsed sig)
          check_order
          (run_checks lib resolver parsed sig opts now)
  unfolding run_checks
  evm_checks-IsTrail parsed sig now =
      let verdict = verify_signature lib resolver parsed sig in
      let step = IsEvmTrail-step opts given verdict in
      step CheckName.domain (domain_error lib parsed opts) _ _ (
        step CheckName.not_before (not_before_error lib parsed now) _ _ (
          step CheckName.expiry (expiry_error lib parsed now) _ _ (
            step CheckName.nonce (nonce_error lib parsed opts) _ _
              (IsEvmTrail-signature opts given verdict (identity_of lib parsed)))))
