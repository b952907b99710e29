-- ===== src/Hub/Handlers/Replay.antt =====
-- examples/hub/handlers.go: the nonces over any sequence of requests.
use siwx_go.Base.{
  Bytes, false, Option, none, some, equal, ◌≡◌, ◌≢◌, refl, ap, ◌∙◌, inl, inr, arith, Bool-cases,
  Option-cases,
}
use siwx_go.Go.Hex.{hex_encode}
use siwx_go.Go.Maps.{lookup}
use siwx_go.Go.Strings.{trim_space}
use siwx_go.Hub.Handlers.Http.{Request, cleared, Reply, Hub, Env, Draws, nonce_ttl}
use siwx_go.Hub.Handlers.Keeps.{verify_burned-nonces, link_burned-nonces}
use siwx_go.Hub.Handlers.{
  read_body, write_problem, get_nonce, verify_burned, link_burned, post_verify, post_link,
  register_owner, post_register_contract_wallet,
}
use siwx_go.Hub.Nonces.SingleUse.{issued, Step-absent}
use siwx_go.Hub.Nonces.{issue}
use siwx_go.Hub.Handlers.Spend.{
  malformed_status, kept_not, not_ok, refused_not_ok, burn_cookie-absent, burn_cookie-cleared,
  burn_cookie-refused,
}

get_nonce-nonces :
    (d : Draws) (h : Hub)
    → (get_nonce d h).1.nonces ≡ (issue d.nonce_random d.swept_at d.issued_at nonce_ttl h.nonces).1
unfolding get_nonce
get_nonce-nonces d h =
    elim (Option-cases (issue d.nonce_random d.swept_at d.issued_at nonce_ttl h.nonces).0) [
      | inl e ↦ rw (get_nonce, e) refl
      | inr (b, e) ↦ rw (get_nonce, e) refl
    ]

module _ (env : Env) (n : Bytes) where
  -- A request that the server has handled: any of its handlers, where `getNonce` makes another nonce.
  pub data Handled (h h' : Hub) : Type 0 where
    nonce_made :
        (d : Draws)
        → ((b : Bytes) → d.nonce_random ≡ some b → equal (hex_encode b) n ≡ false)
        → h' ≡ (get_nonce d h).1
        → Handled h h'
    verify_posted : (req : Request) (d : Draws) → h' ≡ (post_verify env req d h).1 → Handled h h'
    link_posted :
        (identity : Option Bytes) (req : Request) (d : Draws)
        → h' ≡ (post_link env identity req d h).1
        → Handled h h'
    wallet_posted :
        (req : Request) → h' ≡ (post_register_contract_wallet env req h).1 → Handled h h'

  -- Any number of them.
  pub data Session : Hub → Hub → Type 0 where
    stop : (h : Hub) → Session h h
    next : (h mid h' : Hub) → Handled h mid → Session mid h' → Session h h'

  get_nonce-absent :
      (d : Draws) (h : Hub)
      → ((b : Bytes) → d.nonce_random ≡ some b → equal (hex_encode b) n ≡ false)
      → lookup h.nonces n ≡ none
      → lookup ((get_nonce d h).1.nonces) n ≡ none
  unfolding issue
  get_nonce-absent d h other a =
      ap (λ s. lookup s n) (get_nonce-nonces d h) ∙ elim (Option-cases d.nonce_random) [
        | inl e ↦ rw (issue, e) a
        | inr (b, e) ↦
            rw (issue, e)
              (Step-absent n h.nonces _ (issued b d.swept_at d.issued_at nonce_ttl (other b e) refl)
                a)
      ]

  post_verify-absent :
      (req : Request) (d : Draws) (h : Hub)
      → lookup h.nonces n ≡ none
      → lookup ((post_verify env req d h).1.nonces) n ≡ none
  unfolding post_verify
  post_verify-absent req d h a = elim (Option-cases (read_body env req)) [
    | inl e ↦ rw (post_verify, e) a
    | inr (p, e) ↦
        rw (post_verify, e)
          (burn_cookie-absent req d (verify_burned env req d p) (verify_burned-nonces env d req p) n
            h a)
  ]

  post_link-absent :
      (identity : Option Bytes) (req : Request) (d : Draws) (h : Hub)
      → lookup h.nonces n ≡ none
      → lookup ((post_link env identity req d h).1.nonces) n ≡ none
  unfolding post_link
  post_link-absent none req d h a = a
  post_link-absent (some id) req d h a = elim (Option-cases (read_body env req)) [
    | inl e ↦ rw (post_link, e) a
    | inr (p, e) ↦
        rw (post_link, e)
          (burn_cookie-absent req d (link_burned env id req d p) (link_burned-nonces env d req p id)
            n h a)
  ]

  register-nonces :
      (req : Request) (h : Hub) → (post_register_contract_wallet env req h).1.nonces ≡ h.nonces
  unfolding post_register_contract_wallet register_owner
  register-nonces req h = elim (Option-cases h.demo_wallets) [
    | inl e ↦ rw (post_register_contract_wallet, e) refl
    | inr (owners, e) ↦ elim (Option-cases (env.bind_owner req.body)) [
      | inl f ↦ rw (post_register_contract_wallet, e, f) refl
      | inr (owner, f) ↦ elim (Bool-cases (env.is_hex_address (trim_space owner))) [
        | inl g ↦ rw (post_register_contract_wallet, e, f, register_owner, g) refl
        | inr g ↦ rw (post_register_contract_wallet, e, f, register_owner, g) refl
      ]
    ]
  ]

  Handled-absent :
      (h h' : Hub) → Handled h h' → lookup h.nonces n ≡ none → lookup h'.nonces n ≡ none
  Handled-absent h h' (nonce_made d other e) a = rw e (get_nonce-absent d h other a)
  Handled-absent h h' (verify_posted req d e) a = rw e (post_verify-absent req d h a)
  Handled-absent h h' (link_posted o req d e) a = rw e (post_link-absent o req d h a)
  Handled-absent h h' (wallet_posted req e) a =
      rw e (ap (λ s. lookup s n) (register-nonces req h) ∙ a)

  Session-absent :
      (h h' : Hub) → Session h h' → lookup h.nonces n ≡ none → lookup h'.nonces n ≡ none
  Session-absent h h' (stop _) a = a
  Session-absent h h' (next _ mid _ step rest) a =
      Session-absent mid h' rest (Handled-absent h mid step a)

-- What a second use of a nonce comes to.
abbrev pub IsTurnedAway : Hub → Reply × Hub → Type 0
IsTurnedAway h answer = (answer.0.status ≢ 200) × (answer.1 ≡ h)

module _ (env : Env) (h : Hub) where
  verify_absent :
      (req : Request) (d : Draws)
      → lookup h.nonces req.nonce_cookie ≡ none
      → IsTurnedAway h (post_verify env req d h)
  unfolding post_verify
  verify_absent req d a = elim (Option-cases (read_body env req)) [
    | inl e ↦ rw (post_verify, e) (not_ok (malformed_status req), refl)
    | inr (p, e) ↦
        let (status, same) =
          burn_cookie-refused req d (verify_burned env req d p) (verify_burned-nonces env d req p) h
            a in
        rw (post_verify, e) (refused_not_ok status, same)
  ]

  link_absent :
      (identity : Option Bytes) (req : Request) (d : Draws)
      → lookup h.nonces req.nonce_cookie ≡ none
      → IsTurnedAway h (post_link env identity req d h)
  unfolding post_link
  link_absent none req d a = (λ (z : 401 ≡ 200). omega arith, refl)
  link_absent (some id) req d a = elim (Option-cases (read_body env req)) [
    | inl e ↦ rw (post_link, e) (not_ok (malformed_status req), refl)
    | inr (p, e) ↦
        let (status, same) =
          burn_cookie-refused req d (link_burned env id req d p) (link_burned-nonces env d req p id)
            h a in
        rw (post_link, e) (refused_not_ok status, same)
  ]

  verify_clears :
      (req : Request) (d : Draws)
      → (post_verify env req d h).0.cookie ≡ cleared
      → lookup ((post_verify env req d h).1.nonces) req.nonce_cookie ≡ none
  unfolding post_verify write_problem
  verify_clears req d c = elim (Option-cases (read_body env req)) [
    | inl e ↦ absurd (kept_not (rw (post_verify, e) at c))
    | inr (p, e) ↦
        rw (post_verify, e)
          (burn_cookie-cleared req d (verify_burned env req d p) (verify_burned-nonces env d req p)
            h (rw (post_verify, e) at c))
  ]

-- Once `postVerify` has answered a request and cleared its cookie, whether it issued a token or not,
-- the nonce of that cookie is spent: after any requests to the handlers, none of which made the same
-- nonce again, a request to verify or to link with this cookie gets no 200 and changes nothing.
pub no_replay :
    (env : Env) (first second : Request) (d d' : Draws) (identity : Option Bytes) (h later : Hub)
    → (post_verify env first d h).0.cookie ≡ cleared
    → Session env first.nonce_cookie (post_verify env first d h).1 later
    → second.nonce_cookie ≡ first.nonce_cookie
    → IsTurnedAway later (post_verify env second d' later)
      × IsTurnedAway later (post_link env identity second d' later)
no_replay env first second d d' identity h later c session same =
    let gone =
      Session-absent env first.nonce_cookie (post_verify env first d h).1 later session
        (verify_clears env h first d c) in
    let spent : lookup later.nonces second.nonce_cookie ≡ none =
      ap (lookup later.nonces) same ∙ gone in
    (verify_absent env later second d' spent, link_absent env later identity second d' spent)
