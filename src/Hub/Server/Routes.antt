-- ===== src/Hub/Server/Routes.antt =====
-- examples/hub/main.go: the limit of a body, and the routes. Which route gin takes, and what it does
-- with a request that has none, are parameters. A request to the server is one step: the two
-- middlewares read their caches as they then are.
use siwx_go.Base.{
  ℕ, ◌*◌, ◌^◌, List, [], ◌∷◌, Bytes, codes, Bool, true, false, Option, none, some, if◌then◌else◌,
  length, ltb, take,
}
use siwx_go.Hub.Config.{Config}
use siwx_go.Hub.Handlers.Http.{
  Received, Request, kept, failure, text, file, claims_body, Reply, Hub, Env, Draws,
}
use siwx_go.Hub.Handlers.{
  get_nonce, get_config, get_jwks, post_verify, post_link, post_register_contract_wallet,
}
use siwx_go.Hub.Issuer.{HubClaims}
use siwx_go.Hub.Metrics.{get_metrics}
use siwx_go.Middleware.{
  Keys, Response, JwtLib, Decision, aborted, admitted, jwt_auth, identity_id, get_me,
}

abbrev pub max_body_bytes : ℕ
max_body_bytes = 8 * 2 ^ 10

-- `limitBody`: `http.MaxBytesReader` gives the first `n` bytes of a longer body, and then fails.
unfoldable pub limit_body : ℕ → Bytes → Received
limit_body n body =
    if ltb n (length body)
    then record { bytes = take n body; cut_off = true }
    else record { bytes = body; cut_off = false }

-- A request, as it comes in. A missing header or cookie is empty.
pub record HttpRequest : Type 0 where
  pub method : Bytes
  pub path : Bytes
  pub authorization : Bytes
  pub nonce_cookie : Bytes
  pub request_id : Bytes
  pub body : Bytes

-- What stands behind the paths.
pub data Route : Type 0 where
  nonce verify link config contract_wallet jwks metrics health me : Route
  web : Bytes → Route

abbrev pub RouteTable : Type 0
RouteTable = List (Bytes × Bytes × Route)

abbrev pub get_method : Bytes
get_method = codes "GET"

abbrev pub post_method : Bytes
post_method = codes "POST"

-- The calls of `r.GET` and `r.POST`.
abbrev pub demo_routes : Bool → RouteTable → RouteTable
demo_routes true rest = (post_method, codes "/demo/contract-wallet", contract_wallet) ∷ rest
demo_routes false rest = rest

unfoldable pub routes : Config → RouteTable
routes cfg =
    (get_method, codes "/auth/nonce", nonce)
    ∷ (post_method, codes "/auth/verify", verify)
    ∷ (post_method, codes "/auth/link", link)
    ∷ (get_method, codes "/config", config)
    ∷ demo_routes cfg.contract_wallet_demo (
        (get_method, codes "/.well-known/jwks.json", jwks)
        ∷ (get_method, codes "/metrics", metrics)
        ∷ (get_method, codes "/healthz", health)
        ∷ (get_method, codes "/me", me)
        ∷ (get_method, codes "/", web (codes "./examples/web/index.html"))
        ∷ (get_method, codes "/app.js", web (codes "./examples/web/app.js"))
        ∷ (get_method, codes "/siwx-progress.js", web (codes "./examples/web/siwx-progress.js"))
        ∷ [])

-- gin's choice of a route, by the method and the path of a request.
abbrev pub Router : Type 0
Router = RouteTable → Bytes → Bytes → Option Route

-- The state of the server: that of the hub, and the caches of the two middlewares.
pub record Server : Type 0 where
  pub hub : Hub
  pub link_keys : Keys
  pub me_keys : Keys

-- What the handlers read of a request, behind `limitBody`.
unfoldable pub received : HttpRequest → Request
unfolding limit_body
received req = record {
  body = limit_body max_body_bytes req.body;
  nonce_cookie = req.nonce_cookie;
  request_id = req.request_id;
}

-- `AbortWithStatusJSON` of the middleware.
abbrev turned_away : Bytes → Reply
turned_away reason = record { status = 401; body = failure reason; cookie = kept }

-- What `GetMe` writes.
abbrev me_reply : ℕ × Option HubClaims → Reply
me_reply (status, none) = record {
  status = status;
  body = failure (codes "no claims");
  cookie = kept;
}
me_reply (status, some claims) = record {
  status = status;
  body = claims_body claims;
  cookie = kept;
}

-- A handler of the hub, on the state of the server.
abbrev on_hub : Reply × Hub → Server → Reply × Server
on_hub (reply, h) s = (reply, record s { hub = h })

module _ (env : Env) (lib : JwtLib) (cfg : Config) where
  -- `JWTAuth` with the issuer and the audience of the configuration.
  abbrev pub auth : HttpRequest → Response → Keys → Decision × Keys
  auth req fetched keys =
      jwt_auth lib cfg.issuer_url cfg.audience req.authorization fetched keys keys keys

  -- The route `/auth/link`, behind its middleware.
  unfoldable pub serve_link : HttpRequest → Draws → Response → Server → Reply × Server
  unfolding jwt_auth post_link identity_id
  serve_link req d fetched s =
      let (decision, keys) = auth req fetched s.link_keys in
      let s' = record s { link_keys = keys } in
      elim decision [
        | aborted reason ↦ (turned_away reason, s')
        | admitted claims ↦
            on_hub (post_link env (identity_id (admitted claims)) (received req) d s.hub) s'
      ]

  -- The route `/me`, behind its middleware.
  unfoldable pub serve_me : HttpRequest → Response → Server → Reply × Server
  unfolding jwt_auth get_me
  serve_me req fetched s =
      let (decision, keys) = auth req fetched s.me_keys in
      let s' = record s { me_keys = keys } in
      elim decision [
        | aborted reason ↦ (turned_away reason, s')
        | admitted claims ↦ (me_reply (get_me (some claims)), s')
      ]

  unfoldable pub serve_route : Route → HttpRequest → Draws → Response → Server → Reply × Server
  unfolding get_nonce post_verify serve_link get_config post_register_contract_wallet get_jwks
      get_metrics serve_me
  serve_route nonce req d fetched s = on_hub (get_nonce d s.hub) s
  serve_route verify req d fetched s = on_hub (post_verify env (received req) d s.hub) s
  serve_route link req d fetched s = serve_link req d fetched s
  serve_route config req d fetched s = (get_config s.hub, s)
  serve_route contract_wallet req d fetched s =
      on_hub (post_register_contract_wallet env (received req) s.hub) s
  serve_route jwks req d fetched s = (get_jwks env, s)
  serve_route metrics req d fetched s = (get_metrics s.hub, s)
  serve_route health req d fetched s =
      (record { status = 200; body = text (codes "ok"); cookie = kept }, s)
  serve_route me req d fetched s = serve_me req fetched s
  serve_route (web path) req d fetched s =
      (record { status = 200; body = file path; cookie = kept }, s)

  -- The engine: `unrouted` is gin's reply where `router` finds no route.
  unfoldable pub serve :
      Router → (HttpRequest → Reply) → HttpRequest → Draws → Response → Server → Reply × Server
  unfolding routes serve_route
  serve router unrouted req d fetched s = elim (router (routes cfg) req.method req.path) [
    | none ↦ (unrouted req, s)
    | some r ↦ serve_route r req d fetched s
  ]

-- `main`, once the server listens.
unfoldable pub started : Hub → Server
started h = record { hub = h; link_keys = []; me_keys = [] }
