-- ===== src/Hub/Handlers/Keeps.antt =====
-- examples/hub/handlers.go: what comes behind `Burn` leaves the nonces as they are.
use siwx_go.Base.{List, [], Bytes, Bool, ◌≡◌, ◌⊎◌, refl, inl, inr, Option-cases}
use siwx_go.Go.Hex.{hex_encode}
use siwx_go.Hub.Handlers.Http.{Request, Hub, Env, Draws}
use siwx_go.Hub.Handlers.{
  Presented, run_for, token_reply, sign_in, verify_attempt, verify_burned, link_burned,
}
use siwx_go.Hub.Identities.{
  Upserted, upserted, no_random, upsert_by_wallet, Linking, done, identity_not_found, link_wallet,
  wallets,
}
use siwx_go.Hub.Issuer.{issue_token}
use siwx_go.Hub.Recorder.{CheckInfo}
use siwx_go.Siwx.Caip.{Parsed, CaipError, parsed, refused}
use siwx_go.Siwx.Registry.Trace.{Outcome-cases}
use siwx_go.Siwx.Verifier.{Identity}

pub Parsed-cases :
    {A : Type 0} (p : Parsed A) → ((a : A) × (p ≡ parsed a)) ⊎ ((e : CaipError) × (p ≡ refused e))
Parsed-cases (parsed a) = inl (a, refl)
Parsed-cases (refused e) = inr (e, refl)

pub Upserted-cases :
    (u : Upserted)
    → ((id : Bytes) × ((created : Bool) × (u ≡ upserted id created))) ⊎ (u ≡ no_random)
Upserted-cases (upserted id created) = inl (id, (created, refl))
Upserted-cases no_random = inr refl

pub Linking-cases : (l : Linking) → (l ≡ done) ⊎ (l ≡ identity_not_found)
Linking-cases done = inl refl
Linking-cases identity_not_found = inr refl

module _ (env : Env) (d : Draws) where
  token_reply-nonces :
      (id : Bytes) (cs : List CheckInfo) (h : Hub) → (token_reply env d id cs h).1.nonces ≡ h.nonces
  unfolding token_reply
  token_reply-nonces id cs h = elim (Parsed-cases (wallets id h.ids)) [
    | inr (x, e) ↦ rw (token_reply, e) refl
    | inl (ws, e) ↦ elim (Option-cases (issue_token env.sign env.issuer d.token_at id ws)) [
      | inl f ↦ rw (token_reply, e, f) refl
      | inr (t, f) ↦ rw (token_reply, e, f) refl
    ]
  ]

  sign_in-nonces :
      (i : Identity) (cs : List CheckInfo) (h : Hub) → (sign_in env d i cs h).1.nonces ≡ h.nonces
  unfolding sign_in
  sign_in-nonces i cs h = elim (Upserted-cases (upsert_by_wallet d.id_random i.account h.ids).0) [
    | inr e ↦ rw (sign_in, e) refl
    | inl (id, (new, e)) ↦
        rw (sign_in, e)
          (token_reply-nonces id cs
            (record h { ids = (upsert_by_wallet d.id_random i.account h.ids).1 }))
  ]

  module _ (req : Request) (p : Presented) where
    verify_attempt-nonces :
        (id : Bytes) (h : Hub) → (verify_attempt env req d p id h).1.nonces ≡ h.nonces
    unfolding verify_attempt
    verify_attempt-nonces id h = elim (Outcome-cases (run_for env h req d id p).outcome) [
      | inl (i, e) ↦ rw (verify_attempt, e) (sign_in-nonces i _ _)
      | inr (inl (x, e)) ↦ rw (verify_attempt, e) refl
      | inr (inr e) ↦ rw (verify_attempt, e) refl
    ]

    pub verify_burned-nonces : (h : Hub) → (verify_burned env req d p h).1.nonces ≡ h.nonces
    unfolding verify_burned
    verify_burned-nonces h = elim (Option-cases d.attempt_random) [
      | inl e ↦ rw (verify_burned, e) refl
      | inr (b, e) ↦ rw (verify_burned, e) (verify_attempt-nonces (hex_encode b) _)
    ]

    pub link_burned-nonces :
        (id : Bytes) (h : Hub) → (link_burned env id req d p h).1.nonces ≡ h.nonces
    unfolding link_burned
    link_burned-nonces id h = elim (Outcome-cases (run_for env h req d [] p).outcome) [
      | inl (i, e) ↦ elim (Linking-cases (link_wallet id i.account h.ids).0) [
        | inl f ↦ rw (link_burned, e, f) refl
        | inr f ↦ rw (link_burned, e, f) refl
      ]
      | inr (inl (x, e)) ↦ rw (link_burned, e) refl
      | inr (inr e) ↦ rw (link_burned, e) refl
    ]
