-- ===== src/Hub/Handlers/Token.antt =====
-- examples/hub/handlers.go: the token in the body of a reply of `postVerify`.
use siwx_go.Base.{List, [], Bytes, some, equal, ◌≡◌, inl, inr, Bool-cases, Option-cases}
use siwx_go.Go.Hex.{hex_encode}
use siwx_go.Hub.Handlers.Http.{Request, Reply, Hub, Env, Draws, verify_response}
use siwx_go.Hub.Handlers.Keeps.{Parsed-cases, Upserted-cases}
use siwx_go.Hub.Handlers.Spend.{Burned-cases}
use siwx_go.Hub.Handlers.{
  Presented, read_body, run_for, write_problem, burn_cookie, token_reply, sign_in, verify_attempt,
  verify_burned, post_verify,
}
use siwx_go.Hub.Identities.{upsert_by_wallet, wallets}
use siwx_go.Hub.Issuer.{issue_token}
use siwx_go.Hub.Nonces.{burn}
use siwx_go.Hub.Recorder.{CheckInfo}
use siwx_go.Siwx.Caip.{Caip10}
use siwx_go.Siwx.Registry.Trace.{Outcome-cases}
use siwx_go.Siwx.Verifier.{Identity}

module _ (env : Env) (d : Draws) (token id : Bytes) (checks : List CheckInfo) where
  -- The reply shows this token, this identity and these checks.
  abbrev pub Shows : Reply → Type 0
  Shows r = r.body ≡ verify_response token id checks

  -- The token was made for the identity.
  abbrev pub IsMade : Type 0
  IsMade = (ws : List Caip10) × (issue_token env.sign env.issuer d.token_at id ws ≡ some token)

  token_reply-IsMade :
      (i : Bytes) (cs : List CheckInfo) (h : Hub) → Shows (token_reply env d i cs h).0 → IsMade
  unfolding token_reply
  token_reply-IsMade i cs h b = elim (Parsed-cases (wallets i h.ids)) [
    | inr (x, e) ↦ absurd (let z = rw (token_reply, e) at b in cc)
    | inl (ws, e) ↦ elim (Option-cases (issue_token env.sign env.issuer d.token_at i ws)) [
      | inl f ↦ absurd (let z = rw (token_reply, e, f) at b in cc)
      | inr (t, f) ↦
          let z = rw (token_reply, e, f) at b in
          let same : i ≡ id = cc in let made : t ≡ token = cc in (ws, rw (← same, ← made) f)
    ]
  ]

  sign_in-IsMade :
      (i : Identity) (cs : List CheckInfo) (h : Hub) → Shows (sign_in env d i cs h).0 → IsMade
  unfolding sign_in
  sign_in-IsMade i cs h b = elim (Upserted-cases (upsert_by_wallet d.id_random i.account h.ids).0) [
    | inr e ↦ absurd (let z = rw (sign_in, e) at b in cc)
    | inl (x, (new, e)) ↦
        token_reply-IsMade x cs
          (record h { ids = (upsert_by_wallet d.id_random i.account h.ids).1 })
          (rw (sign_in, e) at b)
  ]

  module _ (req : Request) where
    verify_attempt-IsMade :
        (p : Presented) (a : Bytes) (h : Hub) → Shows (verify_attempt env req d p a h).0 → IsMade
    unfolding verify_attempt write_problem
    verify_attempt-IsMade p a h b = elim (Outcome-cases (run_for env h req d a p).outcome) [
      | inl (i, e) ↦ sign_in-IsMade i _ _ (rw (verify_attempt, e) at b)
      | inr (inl (x, e)) ↦ absurd (let z = rw (verify_attempt, e) at b in cc)
      | inr (inr e) ↦ absurd (let z = rw (verify_attempt, e) at b in cc)
    ]

    verify_burned-IsMade :
        (p : Presented) (h : Hub) → Shows (verify_burned env req d p h).0 → IsMade
    unfolding verify_burned
    verify_burned-IsMade p h b = elim (Option-cases d.attempt_random) [
      | inl e ↦ absurd (let z = rw (verify_burned, e) at b in cc)
      | inr (a, e) ↦ verify_attempt-IsMade p (hex_encode a) _ (rw (verify_burned, e) at b)
    ]

    burn_cookie-IsMade :
        (p : Presented) (h : Hub)
        → Shows (burn_cookie req d (verify_burned env req d p) h).0
        → IsMade
    unfolding burn_cookie write_problem
    burn_cookie-IsMade p h b = elim (Bool-cases (equal req.nonce_cookie [])) [
      | inl e ↦ absurd (let z = rw (burn_cookie, e) at b in cc)
      | inr e ↦ elim (Burned-cases (burn req.nonce_cookie d.burned_at h.nonces).0) [
        | inl f ↦ verify_burned-IsMade p _ (rw (burn_cookie, e, f) at b)
        | inr f ↦ absurd (let z = rw (burn_cookie, e, f) at b in cc)
      ]
    ]

    -- What `postVerify` shows was made for the identity that it shows.
    pub post_verify-IsMade : (h : Hub) → Shows (post_verify env req d h).0 → IsMade
    unfolding post_verify write_problem
    post_verify-IsMade h b = elim (Option-cases (read_body env req)) [
      | inl e ↦ absurd (let z = rw (post_verify, e) at b in cc)
      | inr (p, e) ↦ burn_cookie-IsMade p h (rw (post_verify, e) at b)
    ]
