-- ===== src/Hub/Server/Changes.antt =====
-- examples/hub/main.go and handlers.go: the requests that can change the identities of a server.
use siwx_go.Base.{some, ◌≡◌, ◌⊎◌, refl, ap, ◌∙◌, inl, inr, Bool-cases, Option-cases}
use siwx_go.Go.Strings.{trim_space}
use siwx_go.Hub.Config.{Config}
use siwx_go.Hub.Handlers.Changes.{get_nonce-ids, SignedIn, Linked, post_verify-ids, post_link-ids}
use siwx_go.Hub.Handlers.Http.{Request, Reply, Hub, Env, Draws}
use siwx_go.Hub.Handlers.{post_link, register_owner, post_register_contract_wallet}
use siwx_go.Hub.Identities.{IdentityStore}
use siwx_go.Hub.Issuer.{HubClaims}
use siwx_go.Hub.Server.Counted.{Decision-cases, serve_me-hub}
use siwx_go.Hub.Server.Routes.{
  HttpRequest, Route, nonce, verify, link, config, contract_wallet, jwks, metrics, health, me, web,
  Server, received, routes, Router, auth, serve_link, serve_route, serve,
}
use siwx_go.Middleware.{JwtLib, Response, admitted}

register-ids :
    (env : Env) (req : Request) (h : Hub) → (post_register_contract_wallet env req h).1.ids ≡ h.ids
unfolding post_register_contract_wallet register_owner
register-ids env req h = elim (Option-cases h.demo_wallets) [
  | inl e ↦ rw (post_register_contract_wallet, e) refl
  | inr (owners, e) ↦ elim (Option-cases (env.bind_owner req.body)) [
    | inl f ↦ rw (post_register_contract_wallet, e, f) refl
    | inr (owner, f) ↦ elim (Bool-cases (env.is_hex_address (trim_space owner))) [
      | inl g ↦ rw (post_register_contract_wallet, e, f, register_owner, g) refl
      | inr g ↦ rw (post_register_contract_wallet, e, f, register_owner, g) refl
    ]
  ]
]

module _ (env : Env) (lib : JwtLib) (cfg : Config) (req : HttpRequest) (d : Draws)
    (fetched : Response) (s : Server) where
  -- The identities after a request, by its route.
  pub data Allowed (ids : IdentityStore) : Route → Type 0 where
    unchanged : (r : Route) → ids ≡ s.hub.ids → Allowed ids r
    signed_in : SignedIn env (received req) d s.hub ids → Allowed ids verify
    linked :
        (claims : HubClaims)
        → (auth env lib cfg req fetched s.link_keys).0 ≡ admitted claims
        → Linked env (received req) d s.hub claims.subject ids
        → Allowed ids link

  serve_link-Allowed : Allowed (serve_link env lib cfg req d fetched s).1.hub.ids link
  unfolding serve_link
  serve_link-Allowed = elim (Decision-cases (auth env lib cfg req fetched s.link_keys).0) [
    | inl (reason, e) ↦ unchanged link (rw (serve_link, e) refl)
    | inr (claims, e) ↦
        let after : (serve_link env lib cfg req d fetched s).1.hub.ids
            ≡ (post_link env (some claims.subject) (received req) d s.hub).1.ids =
          rw (serve_link, e) refl in
        elim (post_link-ids env (received req) d s.hub claims.subject) [
          | inl f ↦ unchanged link (after ∙ f)
          | inr l ↦
              linked claims e
                (record { identity = l.identity; proven = l.proven; ids_are = after ∙ l.ids_are })
        ]
  ]

  serve_route-Allowed :
      (r : Route) → Allowed (serve_route env lib cfg r req d fetched s).1.hub.ids r
  unfolding serve_route
  serve_route-Allowed nonce = unchanged nonce (get_nonce-ids d s.hub)
  serve_route-Allowed verify = elim (post_verify-ids env (received req) d s.hub) [
    | inl e ↦ unchanged verify e
    | inr p ↦ signed_in p
  ]
  serve_route-Allowed link = serve_link-Allowed
  serve_route-Allowed config = unchanged config refl
  serve_route-Allowed contract_wallet =
      unchanged contract_wallet (register-ids env (received req) s.hub)
  serve_route-Allowed jwks = unchanged jwks refl
  serve_route-Allowed metrics = unchanged metrics refl
  serve_route-Allowed health = unchanged health refl
  serve_route-Allowed me =
      unchanged me (ap (λ (h : Hub). h.ids) (serve_me-hub env lib cfg req fetched s))
  serve_route-Allowed (web path) = unchanged (web path) refl

  -- A request changes the identities of the server only on two routes. On `/auth/verify` they become
  -- what `UpsertByWallet` makes of an account that the registry has verified; on `/auth/link`, what
  -- `LinkWallet` makes of such an account for the subject of a token that the middleware has let
  -- through. On both the body was read, and `Burn` took the nonce of the cookie from the store.
  pub serve-Allowed :
      (router : Router) (unrouted : HttpRequest → Reply)
      → ((serve env lib cfg router unrouted req d fetched s).1.hub.ids ≡ s.hub.ids)
        ⊎ ((r : Route) × (router (routes cfg) req.method req.path ≡ some r)
            × Allowed (serve env lib cfg router unrouted req d fetched s).1.hub.ids r)
  unfolding serve
  serve-Allowed router unrouted = elim (Option-cases (router (routes cfg) req.method req.path)) [
    | inl e ↦ inl (rw (serve, e) refl)
    | inr (r, e) ↦ inr (r, e, rw (serve, e) (serve_route-Allowed r))
  ]
