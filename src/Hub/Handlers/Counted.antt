-- ===== src/Hub/Handlers/Counted.antt =====
-- examples/hub/handlers.go: the counters of nonces and tokens, through each handler.
use siwx_go.Base.{
  ◌+◌, ◌≤◌, List, [], Bytes, Option, none, some, length, equal, arith, inl, inr, Bool-cases,
  Option-cases,
}
use siwx_go.Go.Hex.{hex_encode}
use siwx_go.Go.Strings.{trim_space}
use siwx_go.Hub.Handlers.Http.{Request, Reply, Hub, Env, Draws, nonce_ttl}
use siwx_go.Hub.Handlers.Keeps.{Parsed-cases, Upserted-cases, Linking-cases}
use siwx_go.Hub.Handlers.Spend.{Burned-cases}
use siwx_go.Hub.Handlers.{
  Presented, read_body, run_for, get_nonce, burn_cookie, token_reply, sign_in, verify_attempt,
  verify_burned, link_burned, post_verify, post_link, register_owner, post_register_contract_wallet,
}
use siwx_go.Hub.Identities.{upsert_by_wallet, link_wallet, wallets}
use siwx_go.Hub.Issuer.{issue_token}
use siwx_go.Hub.Nonces.{issue, burn}
use siwx_go.Hub.Nonces.Sizes.{length-issue, length-burn}
use siwx_go.Hub.Recorder.{CheckInfo}
use siwx_go.Siwx.Registry.Trace.{Outcome-cases}
use siwx_go.Siwx.Verifier.{Identity}

-- No more tokens than nonces burned, and no more nonces burned or left than issued.
abbrev pub IsCounted : Hub → Type 0
IsCounted h =
    (h.tokens_issued ≤ h.nonces_burned) × (h.nonces_burned + length h.nonces ≤ h.nonces_issued)

-- One nonce has left the map, and is not counted yet.
abbrev HasSpare : Hub → Type 0
HasSpare h =
    (h.tokens_issued ≤ h.nonces_burned) × (h.nonces_burned + length h.nonces + 1 ≤ h.nonces_issued)

-- One nonce has been counted, and no token issued for it.
abbrev IsOpen : Hub → Type 0
IsOpen h =
    (h.tokens_issued + 1 ≤ h.nonces_burned) × (h.nonces_burned + length h.nonces ≤ h.nonces_issued)

pub get_nonce-IsCounted : (d : Draws) (h : Hub) → IsCounted h → IsCounted (get_nonce d h).1
unfolding get_nonce
get_nonce-IsCounted d h c =
    let (bound, kept) = length-issue d.nonce_random d.swept_at d.issued_at nonce_ttl h.nonces in
    elim (Option-cases (issue d.nonce_random d.swept_at d.issued_at nonce_ttl h.nonces).0) [
      | inl e ↦ rw (get_nonce, e) (omega (arith, c, kept e))
      | inr (b, e) ↦ rw (get_nonce, e) (omega (arith, c, bound))
    ]

module _ (env : Env) (d : Draws) where
  token_reply-IsCounted :
      (id : Bytes) (cs : List CheckInfo) (h : Hub)
      → IsOpen h
      → IsCounted (token_reply env d id cs h).1
  unfolding token_reply
  token_reply-IsCounted id cs h c = elim (Parsed-cases (wallets id h.ids)) [
    | inr (x, e) ↦ rw (token_reply, e) (omega (arith, c))
    | inl (ws, e) ↦ elim (Option-cases (issue_token env.sign env.issuer d.token_at id ws)) [
      | inl f ↦ rw (token_reply, e, f) (omega (arith, c))
      | inr (t, f) ↦ rw (token_reply, e, f) (omega (arith, c))
    ]
  ]

  sign_in-IsCounted :
      (i : Identity) (cs : List CheckInfo) (h : Hub) → IsOpen h → IsCounted (sign_in env d i cs h).1
  unfolding sign_in
  sign_in-IsCounted i cs h c =
      elim (Upserted-cases (upsert_by_wallet d.id_random i.account h.ids).0) [
        | inr e ↦ rw (sign_in, e) (omega (arith, c))
        | inl (id, (new, e)) ↦
            rw (sign_in, e)
              (token_reply-IsCounted id cs
                (record h { ids = (upsert_by_wallet d.id_random i.account h.ids).1 }) c)
      ]

  module _ (req : Request) where
    verify_attempt-IsCounted :
        (p : Presented) (id : Bytes) (h : Hub)
        → IsOpen h
        → IsCounted (verify_attempt env req d p id h).1
    unfolding verify_attempt
    verify_attempt-IsCounted p id h c = elim (Outcome-cases (run_for env h req d id p).outcome) [
      | inl (i, e) ↦ rw (verify_attempt, e) (sign_in-IsCounted i _ _ c)
      | inr (inl (x, e)) ↦ rw (verify_attempt, e) (omega (arith, c))
      | inr (inr e) ↦ rw (verify_attempt, e) (omega (arith, c))
    ]

    verify_burned-IsCounted :
        (p : Presented) (h : Hub) → HasSpare h → IsCounted (verify_burned env req d p h).1
    unfolding verify_burned
    verify_burned-IsCounted p h c = elim (Option-cases d.attempt_random) [
      | inl e ↦ rw (verify_burned, e) (omega (arith, c))
      | inr (b, e) ↦
          rw (verify_burned, e) (verify_attempt-IsCounted p (hex_encode b) _ (omega (arith, c)))
    ]

    link_burned-IsCounted :
        (p : Presented) (id : Bytes) (h : Hub)
        → HasSpare h
        → IsCounted (link_burned env id req d p h).1
    unfolding link_burned
    link_burned-IsCounted p id h c = elim (Outcome-cases (run_for env h req d [] p).outcome) [
      | inl (i, e) ↦ elim (Linking-cases (link_wallet id i.account h.ids).0) [
        | inl f ↦ rw (link_burned, e, f) (omega (arith, c))
        | inr f ↦ rw (link_burned, e, f) (omega (arith, c))
      ]
      | inr (inl (x, e)) ↦ rw (link_burned, e) (omega (arith, c))
      | inr (inr e) ↦ rw (link_burned, e) (omega (arith, c))
    ]

    burn_cookie-IsCounted :
        (next : Hub → Reply × Hub)
        → ((h : Hub) → HasSpare h → IsCounted (next h).1)
        → (h : Hub) → IsCounted h
        → IsCounted (burn_cookie req d next h).1
    unfolding burn_cookie
    burn_cookie-IsCounted next keeps h c =
        let (smaller, spare) = length-burn req.nonce_cookie d.burned_at h.nonces in
        elim (Bool-cases (equal req.nonce_cookie [])) [
          | inl e ↦ rw (burn_cookie, e) c
          | inr e ↦ elim (Burned-cases (burn req.nonce_cookie d.burned_at h.nonces).0) [
            | inl f ↦
                rw (burn_cookie, e, f)
                  (keeps (record h { nonces = (burn req.nonce_cookie d.burned_at h.nonces).1 })
                    (omega (arith, c, spare f)))
            | inr f ↦ rw (burn_cookie, e, f) (omega (arith, c, smaller))
          ]
        ]

    pub post_verify-IsCounted : (h : Hub) → IsCounted h → IsCounted (post_verify env req d h).1
    unfolding post_verify
    post_verify-IsCounted h c = elim (Option-cases (read_body env req)) [
      | inl e ↦ rw (post_verify, e) c
      | inr (p, e) ↦
          rw (post_verify, e)
            (burn_cookie-IsCounted (verify_burned env req d p) (verify_burned-IsCounted p) h c)
    ]

    pub post_link-IsCounted :
        (o : Option Bytes) (h : Hub) → IsCounted h → IsCounted (post_link env o req d h).1
    unfolding post_link
    post_link-IsCounted none h c = c
    post_link-IsCounted (some id) h c = elim (Option-cases (read_body env req)) [
      | inl e ↦ rw (post_link, e) c
      | inr (p, e) ↦
          rw (post_link, e)
            (burn_cookie-IsCounted (link_burned env id req d p) (link_burned-IsCounted p id) h c)
    ]

pub register-IsCounted :
    (env : Env) (req : Request) (h : Hub)
    → IsCounted h
    → IsCounted (post_register_contract_wallet env req h).1
unfolding post_register_contract_wallet register_owner
register-IsCounted env req h c = elim (Option-cases h.demo_wallets) [
  | inl e ↦ rw (post_register_contract_wallet, e) c
  | inr (owners, e) ↦ elim (Option-cases (env.bind_owner req.body)) [
    | inl f ↦ rw (post_register_contract_wallet, e, f) c
    | inr (owner, f) ↦ elim (Bool-cases (env.is_hex_address (trim_space owner))) [
      | inl g ↦ rw (post_register_contract_wallet, e, f, register_owner, g) c
      | inr g ↦ rw (post_register_contract_wallet, e, f, register_owner, g) c
    ]
  ]
]
