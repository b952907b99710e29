-- ===== src/Hub/Server/Counted.antt =====
-- examples/hub/main.go and handlers.go: the counters, over all requests that a server has had.
use siwx_go.Base.{List, [], ◌∷◌, Bytes, some, ◌≡◌, ◌⊎◌, refl, inl, inr, arith, Option-cases}
use siwx_go.Hub.Config.{Config}
use siwx_go.Hub.Handlers.Counted.{
  IsCounted, get_nonce-IsCounted, post_verify-IsCounted, post_link-IsCounted, register-IsCounted,
}
use siwx_go.Hub.Handlers.Http.{Reply, Env, Draws}
use siwx_go.Hub.Issuer.{HubClaims}
use siwx_go.Hub.Server.{new_hub}
use siwx_go.Hub.Server.Routes.{
  HttpRequest, Route, nonce, verify, link, config, contract_wallet, jwks, metrics, health, me, web,
  Server, received, routes, Router, auth, serve_link, serve_me, serve_route, serve, started,
}
use siwx_go.Middleware.{JwtLib, Response, Decision, aborted, admitted}

pub Decision-cases :
    (d : Decision)
    → ((reason : Bytes) × (d ≡ aborted reason)) ⊎ ((claims : HubClaims) × (d ≡ admitted claims))
Decision-cases (aborted reason) = inl (reason, refl)
Decision-cases (admitted claims) = inr (claims, refl)

-- A request, with what the server reads of its clocks, of `rand.Read` and of the key set meanwhile.
pub record Visit : Type 0 where
  pub request : HttpRequest
  pub draws : Draws
  pub fetched : Response

module _ (env : Env) (lib : JwtLib) (cfg : Config) where
  pub serve_me-hub :
      (req : HttpRequest) (fetched : Response) (s : Server)
      → (serve_me env lib cfg req fetched s).1.hub ≡ s.hub
  unfolding serve_me
  serve_me-hub req fetched s = elim (Decision-cases (auth env lib cfg req fetched s.me_keys).0) [
    | inl (reason, e) ↦ rw (serve_me, e) refl
    | inr (claims, e) ↦ rw (serve_me, e) refl
  ]

  serve_route-IsCounted :
      (r : Route) (req : HttpRequest) (d : Draws) (fetched : Response) (s : Server)
      → IsCounted s.hub
      → IsCounted (serve_route env lib cfg r req d fetched s).1.hub
  unfolding serve_route serve_link
  serve_route-IsCounted nonce req d fetched s c = get_nonce-IsCounted d s.hub c
  serve_route-IsCounted verify req d fetched s c =
      post_verify-IsCounted env d (received req) s.hub c
  serve_route-IsCounted link req d fetched s c =
      elim (Decision-cases (auth env lib cfg req fetched s.link_keys).0) [
        | inl (reason, e) ↦ rw (serve_link, e) c
        | inr (claims, e) ↦
            rw (serve_link, e)
              (post_link-IsCounted env d (received req) (some claims.subject) s.hub c)
      ]
  serve_route-IsCounted config req d fetched s c = c
  serve_route-IsCounted contract_wallet req d fetched s c =
      register-IsCounted env (received req) s.hub c
  serve_route-IsCounted jwks req d fetched s c = c
  serve_route-IsCounted metrics req d fetched s c = c
  serve_route-IsCounted health req d fetched s c = c
  serve_route-IsCounted me req d fetched s c = rw (serve_me-hub req fetched s) c
  serve_route-IsCounted (web path) req d fetched s c = c

  module _ (router : Router) (unrouted : HttpRequest → Reply) where
    -- The server after some requests.
    abbrev pub served : List Visit → Server → Server
    served [] s = s
    served (v ∷ vs) s =
        served vs (serve env lib cfg router unrouted v.request v.draws v.fetched s).1

    serve-IsCounted :
        (v : Visit) (s : Server)
        → IsCounted s.hub
        → IsCounted (serve env lib cfg router unrouted v.request v.draws v.fetched s).1.hub
    unfolding serve
    serve-IsCounted v s c =
        elim (Option-cases (router (routes cfg) v.request.method v.request.path)) [
          | inl e ↦ rw (serve, e) c
          | inr (r, e) ↦ rw (serve, e) (serve_route-IsCounted r v.request v.draws v.fetched s c)
        ]

    served-IsCounted :
        (vs : List Visit) (s : Server) → IsCounted s.hub → IsCounted (served vs s).hub
    served-IsCounted [] s c = c
    served-IsCounted (v ∷ vs) s c =
        served-IsCounted vs (serve env lib cfg router unrouted v.request v.draws v.fetched s).1
          (serve-IsCounted v s c)

    -- Whatever requests a server has had since it started, it has issued no more tokens than its
    -- sign-ins have burned nonces, and the nonces that they have burned and those that are still in
    -- the store are no more than it has issued.
    pub started-IsCounted : (vs : List Visit) → IsCounted (served vs (started (new_hub cfg))).hub
    unfolding started new_hub
    started-IsCounted vs = served-IsCounted vs (started (new_hub cfg)) (omega arith)
