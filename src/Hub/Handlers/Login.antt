-- ===== src/Hub/Handlers/Login.antt =====
-- examples/hub/handlers.go: the tokens that `postVerify` issues.
use siwx_go.Base.{
  ℕ, List, [], ◌∷◌, Bytes, Bool, true, some, equal, equal_refl, ◌≡◌, ◌≢◌, inl, inr, arith,
  Bool-cases, Option-cases,
}
use siwx_go.Go.Hex.{hex_encode}
use siwx_go.Hub.Handlers.Http.{Request, cleared, Hub, Env, Draws}
use siwx_go.Hub.Handlers.Keeps.{Parsed-cases, Upserted-cases}
use siwx_go.Hub.Handlers.Spend.{Burned-cases, malformed_status, not_ok}
use siwx_go.Hub.Handlers.{
  Presented, read_body, run_for, write_problem, burn_cookie, token_reply, sign_in, verify_attempt,
  verify_burned, post_verify,
}
use siwx_go.Hub.Identities.{IdentityStore, upserted, upsert_by_wallet, wallets}
use siwx_go.Hub.Issuer.{claims_for, issue_token}
use siwx_go.Hub.Nonces.{burned, burn}
use siwx_go.Hub.Problems.Statuses.{written_problem-not_200}
use siwx_go.Hub.Recorder.{CheckInfo}
use siwx_go.Siwx.Caip.{Caip10, parsed}
use siwx_go.Siwx.Errors.{Sentinel, Error, returned}
use siwx_go.Siwx.Registry.Trace.{Outcome-cases}
use siwx_go.Siwx.Verifier.{Identity}

equal_nil : (b : Bytes) → b ≡ [] → equal b [] ≡ true
equal_nil b h = rw h (equal_refl [])

module _ (env : Env) (d : Draws) where
  -- A token was issued for the identity of a wallet, in a server whose identities are `ids`.
  pub record IsIssued (i : Identity) (ids : IdentityStore) : Type 0 where
    pub identity_id : Bytes
    pub created : Bool
    pub linked : List Caip10
    pub token : Bytes
    pub upserted_as : (upsert_by_wallet d.id_random i.account ids).0 ≡ upserted identity_id created
    pub lists : wallets identity_id (upsert_by_wallet d.id_random i.account ids).1 ≡ parsed linked
    pub signed : env.sign (claims_for env.issuer d.token_at identity_id linked) ≡ some token

  server_error : ¬ (◌≡◌ {A = ℕ} 500 200)
  server_error h = omega arith

  token_issued :
      (id : Bytes) (cs : List CheckInfo) (h : Hub)
      → (token_reply env d id cs h).0.status ≡ 200
      → (ws : List Caip10) × ((token : Bytes) × ((wallets id h.ids ≡ parsed ws)
            × (env.sign (claims_for env.issuer d.token_at id ws) ≡ some token)))
  unfolding token_reply issue_token
  token_issued id cs h s = elim (Parsed-cases (wallets id h.ids)) [
    | inr (x, e) ↦ absurd (server_error (rw (token_reply, e) at s))
    | inl (ws, e) ↦ elim (Option-cases (env.sign (claims_for env.issuer d.token_at id ws))) [
      | inl f ↦ absurd (server_error (rw (token_reply, e, issue_token, f) at s))
      | inr (token, f) ↦ (ws, (token, (e, f)))
    ]
  ]

  sign_in-IsIssued :
      (i : Identity) (cs : List CheckInfo) (h : Hub)
      → (sign_in env d i cs h).0.status ≡ 200
      → IsIssued i h.ids
  unfolding sign_in
  sign_in-IsIssued i cs h s =
      elim (Upserted-cases (upsert_by_wallet d.id_random i.account h.ids).0) [
        | inr e ↦ absurd (server_error (rw (sign_in, e) at s))
        | inl (id, (new, e)) ↦
            let (ws, (token, (l, t))) =
              token_issued id cs
                (record h { ids = (upsert_by_wallet d.id_random i.account h.ids).1 })
                (rw (sign_in, e) at s) in
            record {
              identity_id = id;
              created = new;
              linked = ws;
              token = token;
              upserted_as = e;
              lists = l;
              signed = t;
            }
      ]

  module _ (req : Request) (p : Presented) where
    problem_not_200 : (e : Error) → (write_problem e cleared req).status ≢ 200
    unfolding write_problem
    problem_not_200 e = written_problem-not_200 e req.request_id

    attempt-IsIssued :
        (id : Bytes) (h : Hub)
        → (verify_attempt env req d p id h).0.status ≡ 200
        → (i : Identity) × (((run_for env h req d id p).outcome ≡ returned i) × IsIssued i h.ids)
    unfolding verify_attempt
    attempt-IsIssued id h s = elim (Outcome-cases (run_for env h req d id p).outcome) [
      | inl (i, e) ↦ (i, (e, sign_in-IsIssued i _ _ (rw (verify_attempt, e) at s)))
      | inr (inl (x, e)) ↦ absurd (problem_not_200 x (rw (verify_attempt, e) at s))
      | inr (inr e) ↦ absurd (server_error (rw (verify_attempt, e) at s))
    ]

    burned-IsIssued :
        (h : Hub)
        → (verify_burned env req d p h).0.status ≡ 200
        → (b : Bytes) × ((i : Identity) × ((d.attempt_random ≡ some b)
              × (((run_for env h req d (hex_encode b) p).outcome ≡ returned i) × IsIssued i h.ids)))
    unfolding verify_burned
    burned-IsIssued h s = elim (Option-cases d.attempt_random) [
      | inl e ↦ absurd (server_error (rw (verify_burned, e) at s))
      | inr (b, e) ↦
          let (i, (run, issued)) = attempt-IsIssued (hex_encode b) _ (rw (verify_burned, e) at s) in
          (b, (i, (e, (run, issued))))
    ]

  -- What stands behind a token.
  pub record IsLogin (req : Request) (h : Hub) : Type 0 where
    pub presented : Presented
    pub attempt : Bytes
    pub identity : Identity
    pub reads : read_body env req ≡ some presented
    pub cookie_given : req.nonce_cookie ≢ []
    pub nonce_burned : (burn req.nonce_cookie d.burned_at h.nonces).0 ≡ burned
    pub verified : (run_for env h req d attempt presented).outcome ≡ returned identity
    pub issued : IsIssued identity h.ids

  -- `postVerify` answers 200 only where the body could be read, the cookie held a nonce that `Burn`
  -- took from the store, the registry verified the message and the signature for the server's domain
  -- and this very nonce, and the token was signed for the identity of the account that it returned,
  -- with the wallets of that identity.
  pub post_verify-IsLogin :
      (req : Request) (h : Hub) → (post_verify env req d h).0.status ≡ 200 → IsLogin req h
  unfolding post_verify burn_cookie write_problem
  post_verify-IsLogin req h s = elim (Option-cases (read_body env req)) [
    | inl e ↦ absurd (not_ok (malformed_status req) (rw (post_verify, e) at s))
    | inr (p, e) ↦ elim (Bool-cases (equal req.nonce_cookie [])) [
      | inl f ↦ absurd (
          written_problem-not_200 (Sentinel.nonce_mismatch ∷ []) req.request_id
            (rw (post_verify, e, burn_cookie, f) at s))
      | inr f ↦ elim (Burned-cases (burn req.nonce_cookie d.burned_at h.nonces).0) [
        | inr g ↦ absurd (
            written_problem-not_200 (Sentinel.nonce_mismatch ∷ []) req.request_id
              (rw (post_verify, e, burn_cookie, f, g) at s))
        | inl g ↦
            let (b, (i, (_, (run, issued)))) =
              burned-IsIssued req p _ (rw (post_verify, e, burn_cookie, f, g) at s) in
            record {
              presented = p;
              attempt = hex_encode b;
              identity = i;
              reads = e;
              cookie_given = λ n. cc (f, equal_nil req.nonce_cookie n);
              nonce_burned = g;
              verified = run;
              issued = issued;
            }
      ]
    ]
  ]
