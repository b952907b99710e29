-- ===== src/Hub/Handlers/Changes.antt =====
-- examples/hub/handlers.go: what the handlers do to the identities.
use siwx_go.Base.{
  List, [], Bytes, some, equal, ◌≡◌, ◌⊎◌, refl, ap, ◌∙◌, ◌+◌, inl, inr, Bool-cases, Option-cases,
}
use siwx_go.Go.Hex.{hex_encode}
use siwx_go.Hub.Handlers.Http.{Request, Reply, Hub, Env, Draws, nonce_ttl}
use siwx_go.Hub.Handlers.Keeps.{Parsed-cases, Upserted-cases, Linking-cases}
use siwx_go.Hub.Handlers.Spend.{Burned-cases}
use siwx_go.Hub.Handlers.{
  Presented, read_body, run_for, get_nonce, burn_cookie, token_reply, sign_in, verify_attempt,
  verify_burned, link_burned, post_verify, post_link,
}
use siwx_go.Hub.Identities.{IdentityStore, upsert_by_wallet, link_wallet, wallets}
use siwx_go.Hub.Issuer.{issue_token}
use siwx_go.Hub.Nonces.{burned, issue, burn}
use siwx_go.Hub.Recorder.{CheckInfo}
use siwx_go.Siwx.Errors.{returned}
use siwx_go.Siwx.Registry.Trace.{Outcome-cases}
use siwx_go.Siwx.Verifier.{Identity}

pub get_nonce-ids : (d : Draws) (h : Hub) → (get_nonce d h).1.ids ≡ h.ids
unfolding get_nonce
get_nonce-ids d h =
    elim (Option-cases (issue d.nonce_random d.swept_at d.issued_at nonce_ttl h.nonces).0) [
      | inl e ↦ rw (get_nonce, e) refl
      | inr (b, e) ↦ rw (get_nonce, e) refl
    ]

module _ (env : Env) (req : Request) (d : Draws) (h : Hub) where
  -- The body was read, the cookie's nonce was burned, and the registry returned an identity under
  -- some attempt identifier.
  pub record IsProven (attempt_id : Bytes) (i : Identity) : Type 0 where
    pub presented : Presented
    pub body_read : read_body env req ≡ some presented
    pub nonce_burned : (burn req.nonce_cookie d.burned_at h.nonces).0 ≡ burned
    pub verified : (run_for env h req d attempt_id presented).outcome ≡ returned i

  -- A sign-in, or a link to the identity `identity_id`, that was proven and changed the identities.
  pub record SignedIn (ids : IdentityStore) : Type 0 where
    pub attempt : Bytes
    pub identity : Identity
    pub random : d.attempt_random ≡ some attempt
    pub proven : IsProven (hex_encode attempt) identity
    pub ids_are : ids ≡ (upsert_by_wallet d.id_random identity.account h.ids).1

  pub record Linked (identity_id : Bytes) (ids : IdentityStore) : Type 0 where
    pub identity : Identity
    pub proven : IsProven [] identity
    pub ids_are : ids ≡ (link_wallet identity_id identity.account h.ids).1

module _ (env : Env) (d : Draws) where
  token_reply-ids :
      (id : Bytes) (cs : List CheckInfo) (h : Hub) → (token_reply env d id cs h).1.ids ≡ h.ids
  unfolding token_reply
  token_reply-ids id cs h = elim (Parsed-cases (wallets id h.ids)) [
    | inr (x, e) ↦ rw (token_reply, e) refl
    | inl (ws, e) ↦ elim (Option-cases (issue_token env.sign env.issuer d.token_at id ws)) [
      | inl f ↦ rw (token_reply, e, f) refl
      | inr (t, f) ↦ rw (token_reply, e, f) refl
    ]
  ]

  sign_in-ids :
      (i : Identity) (cs : List CheckInfo) (h : Hub)
      → (sign_in env d i cs h).1.ids ≡ (upsert_by_wallet d.id_random i.account h.ids).1
  unfolding sign_in
  sign_in-ids i cs h = elim (Upserted-cases (upsert_by_wallet d.id_random i.account h.ids).0) [
    | inr e ↦ rw (sign_in, e) refl
    | inl (id, (new, e)) ↦
        rw (sign_in, e)
          (token_reply-ids id cs
            (record h { ids = (upsert_by_wallet d.id_random i.account h.ids).1 }))
  ]

  module _ (req : Request) (p : Presented) where
    verify_attempt-ids :
        (id : Bytes) (h : Hub)
        → ((verify_attempt env req d p id h).1.ids ≡ h.ids)
          ⊎ ((i : Identity) × ((run_for env h req d id p).outcome ≡ returned i)
              × ((verify_attempt env req d p id h).1.ids
                  ≡ (upsert_by_wallet d.id_random i.account h.ids).1))
    unfolding verify_attempt
    verify_attempt-ids id h = elim (Outcome-cases (run_for env h req d id p).outcome) [
      | inl (i, e) ↦ inr (i, e, rw (verify_attempt, e) (sign_in-ids i _ _))
      | inr (inl (x, e)) ↦ inl (rw (verify_attempt, e) refl)
      | inr (inr e) ↦ inl (rw (verify_attempt, e) refl)
    ]

    verify_burned-ids :
        (h : Hub)
        → ((verify_burned env req d p h).1.ids ≡ h.ids)
          ⊎ ((b : Bytes) × (i : Identity) × (d.attempt_random ≡ some b)
              × ((run_for env h req d (hex_encode b) p).outcome ≡ returned i)
              × ((verify_burned env req d p h).1.ids
                  ≡ (upsert_by_wallet d.id_random i.account h.ids).1))
    unfolding verify_burned
    verify_burned-ids h = elim (Option-cases d.attempt_random) [
      | inl e ↦ inl (rw (verify_burned, e) refl)
      | inr (b, e) ↦
          elim (verify_attempt-ids (hex_encode b)
            (record h { nonces_burned = h.nonces_burned + 1 })) [
              | inl f ↦ inl (rw (verify_burned, e) f)
              | inr (i, f, g) ↦ inr (b, i, e, f, rw (verify_burned, e) g)
            ]
    ]

    link_burned-ids :
        (id : Bytes) (h : Hub)
        → ((link_burned env id req d p h).1.ids ≡ h.ids)
          ⊎ ((i : Identity) × ((run_for env h req d [] p).outcome ≡ returned i)
              × ((link_burned env id req d p h).1.ids ≡ (link_wallet id i.account h.ids).1))
    unfolding link_burned
    link_burned-ids id h = elim (Outcome-cases (run_for env h req d [] p).outcome) [
      | inl (i, e) ↦ elim (Linking-cases (link_wallet id i.account h.ids).0) [
        | inl f ↦ inr (i, e, rw (link_burned, e, f) refl)
        | inr f ↦ inr (i, e, rw (link_burned, e, f) refl)
      ]
      | inr (inl (x, e)) ↦ inl (rw (link_burned, e) refl)
      | inr (inr e) ↦ inl (rw (link_burned, e) refl)
    ]

-- The cookie in front of a handler: its nonce was burned and the handler has run, or the identities
-- are as they were.
burn_cookie-ids :
    (req : Request) (d : Draws) (next : Hub → Reply × Hub) (h : Hub)
    → ((burn_cookie req d next h).1.ids ≡ h.ids)
      ⊎ (((burn req.nonce_cookie d.burned_at h.nonces).0 ≡ burned)
          × (burn_cookie req d next h
              ≡ next (record h { nonces = (burn req.nonce_cookie d.burned_at h.nonces).1 })))
unfolding burn_cookie
burn_cookie-ids req d next h = elim (Bool-cases (equal req.nonce_cookie [])) [
  | inl e ↦ inl (rw (burn_cookie, e) refl)
  | inr e ↦ elim (Burned-cases (burn req.nonce_cookie d.burned_at h.nonces).0) [
    | inl f ↦ inr (f, rw (burn_cookie, e, f) refl)
    | inr f ↦ inl (rw (burn_cookie, e, f) refl)
  ]
]

module _ (env : Env) (req : Request) (d : Draws) (h : Hub) where
  pub post_verify-ids :
      ((post_verify env req d h).1.ids ≡ h.ids)
      ⊎ SignedIn env req d h (post_verify env req d h).1.ids
  unfolding post_verify
  post_verify-ids = elim (Option-cases (read_body env req)) [
    | inl e ↦ inl (rw (post_verify, e) refl)
    | inr (p, e) ↦
        let opened : post_verify env req d h ≡ burn_cookie req d (verify_burned env req d p) h =
          rw (post_verify, e) refl in
        let h' = record h { nonces = (burn req.nonce_cookie d.burned_at h.nonces).1 } in
        elim (burn_cookie-ids req d (verify_burned env req d p) h) [
          | inl f ↦ inl (ap (λ (r : Reply × Hub). r.1.ids) opened ∙ f)
          | inr (f, g) ↦
              let all = ap (λ (r : Reply × Hub). r.1.ids) (opened ∙ g) in
              elim (verify_burned-ids env d req p h') [
                | inl k ↦ inl (all ∙ k)
                | inr (b, i, r, o, k) ↦ inr (record {
                  attempt = b;
                  identity = i;
                  random = r;
                  proven = record { presented = p; body_read = e; nonce_burned = f; verified = o };
                  ids_are = all ∙ k;
                })
              ]
        ]
  ]

  pub post_link-ids :
      (id : Bytes)
      → ((post_link env (some id) req d h).1.ids ≡ h.ids)
        ⊎ Linked env req d h id (post_link env (some id) req d h).1.ids
  unfolding post_link
  post_link-ids id = elim (Option-cases (read_body env req)) [
    | inl e ↦ inl (rw (post_link, e) refl)
    | inr (p, e) ↦
        let opened : post_link env (some id) req d h
            ≡ burn_cookie req d (link_burned env id req d p) h =
          rw (post_link, e) refl in
        let h' = record h { nonces = (burn req.nonce_cookie d.burned_at h.nonces).1 } in
        elim (burn_cookie-ids req d (link_burned env id req d p) h) [
          | inl f ↦ inl (ap (λ (r : Reply × Hub). r.1.ids) opened ∙ f)
          | inr (f, g) ↦
              let all = ap (λ (r : Reply × Hub). r.1.ids) (opened ∙ g) in
              elim (link_burned-ids env d req p id h') [
                | inl k ↦ inl (all ∙ k)
                | inr (i, o, k) ↦ inr (record {
                  identity = i;
                  proven = record { presented = p; body_read = e; nonce_burned = f; verified = o };
                  ids_are = all ∙ k;
                })
              ]
        ]
  ]
