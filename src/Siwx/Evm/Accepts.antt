-- ===== src/Siwx/Evm/Accepts.antt =====
-- siwx/evm/adapter.go: each check of the loop against what it is to establish.
use siwx_go.Base.{
  ℕ, ◌≤◌, ◌<◌, [], Bytes, Bool, false, Option, none, some, equal_iff, not, ◌≡◌, ◌≢◌, ◌↔◌, refl,
  arith, inl, inr, Option-cases,
}
use siwx_go.Go.Time.{TimeLib, before}
use siwx_go.Siws.Fields.Laws.{equal-false}
use siwx_go.Siwx.Errors.{Sentinel, Error}
use siwx_go.Siwx.Evm.Chain.{Libs}
use siwx_go.Siwx.Evm.{
  parse_iso8601, time_error, domain_error, not_before_error, expiry_error, nonce_error,
}
use siwx_go.Siwx.Verifier.{VerifyOpts}

-- A field that is there reads as an instant of which `P` holds.
abbrev pub Reads : TimeLib → (ℕ → Type 0) → Option Bytes → Type 0
Reads time P none = Unit
Reads time P (some s) = (t : ℕ) × ((parse_iso8601 time s ≡ some t) × P t)

some_not : {e : Error} → ¬ (some e ≡ none)
some_not h = cc

pub time_iff :
    (time : TimeLib) (P : ℕ → Type 0) (field : Option Bytes) (failing : ℕ → Bool)
    (sentinel : Sentinel)
    → ((t : ℕ) → (failing t ≡ false) ↔ P t)
    → (time_error time field failing sentinel ≡ none) ↔ Reads time P field
unfolding time_error
time_iff time P none failing sentinel test = (λ _. tt, λ _. refl)
time_iff time P (some s) failing sentinel test = elim (Option-cases (parse_iso8601 time s)) [
  | inl e ↦ (λ h. absurd (some_not (rw (time_error, e) at h)), λ (t, (e', p)). cc)
  | inr (t, e) ↦ (
    λ h. (t, (e, (test t).0 (ground (arith, rw (time_error, e) at h)))),
    λ (u, (e', p)).
        let same : u ≡ t = cc in
        let passes : failing t ≡ false = (test t).1 (rw same at p) in
        rw (time_error, e, passes) refl,
  )
]

module _ {M : Type 0} (lib : Libs M) (parsed : M) where
  pub domain_iff :
      (opts : VerifyOpts)
      → (domain_error lib parsed opts ≡ none)
        ↔ ((opts.expected_domain ≢ []) × (lib.domain parsed ≡ opts.expected_domain))
  unfolding domain_error
  domain_iff opts = (
    λ h. ground (
      arith,
      equal_iff opts.expected_domain [],
      equal_iff (lib.domain parsed) opts.expected_domain,
    ),
    λ (ne, e).
        rw
          (
            domain_error,
            equal-false opts.expected_domain [] ne,
            (equal_iff (lib.domain parsed) opts.expected_domain).1 e,
          )
          refl,
  )

  pub nonce_iff :
      (opts : VerifyOpts)
      → (nonce_error lib parsed opts ≡ none) ↔ (lib.nonce parsed ≡ opts.expected_nonce)
  unfolding nonce_error
  nonce_iff opts = ground (arith, equal_iff (lib.nonce parsed) opts.expected_nonce)

  pub not_before_iff :
      (now : ℕ)
      → (not_before_error lib parsed now ≡ none)
        ↔ Reads lib.time (λ t. t ≤ now) (lib.not_before parsed)
  unfolding not_before_error
  not_before_iff now =
      time_iff lib.time (λ t. t ≤ now) (lib.not_before parsed) (λ t. before now t)
        Sentinel.not_yet_valid (λ t. ground arith)

  pub expiry_iff :
      (now : ℕ)
      → (expiry_error lib parsed now ≡ none)
        ↔ Reads lib.time (λ t. now < t) (lib.expiration_time parsed)
  unfolding expiry_error
  expiry_iff now =
      time_iff lib.time (λ t. now < t) (lib.expiration_time parsed) (λ t. not (before now t))
        Sentinel.expired (λ t. ground arith)
