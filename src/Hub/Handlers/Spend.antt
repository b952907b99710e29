-- ===== src/Hub/Handlers/Spend.antt =====
-- examples/hub/handlers.go: the cookie and its nonce, in front of a handler.
use siwx_go.Base.{ℕ, [], ◌∷◌, Bytes, none, equal, ◌≡◌, ◌≢◌, ◌⊎◌, refl, inl, inr, arith, Bool-cases}
use siwx_go.Go.Maps.{lookup}
use siwx_go.Hub.Handlers.Http.{Request, kept, cleared, Reply, Hub, Draws}
use siwx_go.Hub.Handlers.{write_problem, burn_cookie}
use siwx_go.Hub.Nonces.SingleUse.{burnt, Step-absent, burn_absent, lookup-burn}
use siwx_go.Hub.Nonces.{Burned, burned, nonce_mismatch, burn}
use siwx_go.Hub.Problems.{written_problem, problem_for_err}
use siwx_go.Siwx.Errors.{Sentinel, is}

pub Burned-cases : (b : Burned) → (b ≡ burned) ⊎ (b ≡ nonce_mismatch)
Burned-cases burned = inl refl
Burned-cases nonce_mismatch = inr refl

pub malformed_status :
    (req : Request) → (write_problem (Sentinel.malformed ∷ []) kept req).status ≡ 400
unfolding write_problem written_problem problem_for_err is
malformed_status req = refl

pub kept_not : ¬ (kept ≡ cleared)
kept_not h = cc

pub not_ok : {s : ℕ} → s ≡ 400 → s ≢ 200
not_ok h z = omega arith

pub refused_not_ok : {s : ℕ} → s ≡ 401 → s ≢ 200
refused_not_ok h z = omega arith

-- A handler behind the cookie, by what it does to the nonces.
module _ (req : Request) (d : Draws) (next : Hub → Reply × Hub)
    (keeps : (h : Hub) → (next h).1.nonces ≡ h.nonces) where
  pub burn_cookie-absent :
      (n : Bytes) (h : Hub)
      → lookup h.nonces n ≡ none
      → lookup ((burn_cookie req d next h).1.nonces) n ≡ none
  unfolding burn_cookie
  burn_cookie-absent n h a =
      let store = (burn req.nonce_cookie d.burned_at h.nonces).1 in
      let gone : lookup store n ≡ none =
        Step-absent n h.nonces store (burnt req.nonce_cookie d.burned_at refl) a in
      elim (Bool-cases (equal req.nonce_cookie [])) [
        | inl e ↦ rw (burn_cookie, e) a
        | inr e ↦ elim (Burned-cases (burn req.nonce_cookie d.burned_at h.nonces).0) [
          | inl f ↦ rw (burn_cookie, e, f, keeps (record h { nonces = store })) gone
          | inr f ↦ rw (burn_cookie, e, f) gone
        ]
      ]

  pub burn_cookie-cleared :
      (h : Hub)
      → (burn_cookie req d next h).0.cookie ≡ cleared
      → lookup ((burn_cookie req d next h).1.nonces) req.nonce_cookie ≡ none
  unfolding burn_cookie write_problem
  burn_cookie-cleared h c =
      let store = (burn req.nonce_cookie d.burned_at h.nonces).1 in
      let gone = lookup-burn req.nonce_cookie d.burned_at h.nonces in
      elim (Bool-cases (equal req.nonce_cookie [])) [
        | inl e ↦ absurd (kept_not (rw (burn_cookie, e) at c))
        | inr e ↦ elim (Burned-cases (burn req.nonce_cookie d.burned_at h.nonces).0) [
          | inl f ↦ rw (burn_cookie, e, f, keeps (record h { nonces = store })) gone
          | inr f ↦ rw (burn_cookie, e, f) gone
        ]
      ]

  -- A nonce that is not in the store is refused, and nothing changes.
  pub burn_cookie-refused :
      (h : Hub)
      → lookup h.nonces req.nonce_cookie ≡ none
      → ((burn_cookie req d next h).0.status ≡ 401) × ((burn_cookie req d next h).1 ≡ h)
  unfolding burn_cookie write_problem written_problem problem_for_err is
  burn_cookie-refused h a =
      let e = burn_absent req.nonce_cookie d.burned_at h.nonces a in
      let answer : (burn req.nonce_cookie d.burned_at h.nonces).0 ≡ nonce_mismatch = λ i. (e i).0 in
      elim (Bool-cases (equal req.nonce_cookie [])) [
        | inl f ↦ rw (burn_cookie, f) (refl, refl)
        | inr f ↦ rw (burn_cookie, f, answer) (refl, λ i. record h { nonces = (e i).1 })
      ]
