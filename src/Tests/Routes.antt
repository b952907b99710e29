-- ===== src/Tests/Routes.antt =====
-- The routes of the example server.
use siwx_go.Base.{
  Option, Bytes, equal, if◌then◌else◌, ◌&&◌, List, [], ◌∷◌, codes, true, none, some, ◌≡◌, ◌⊎◌, refl,
}
use siwx_go.Go.Strconv.{pos}
use siwx_go.Hub.Config.{Config}
use siwx_go.Hub.Handlers.Counted.{IsCounted}
use siwx_go.Hub.Handlers.Http.{kept, text, Reply}
use siwx_go.Hub.Server.{new_hub}
use siwx_go.Hub.Server.Changes.{Allowed, serve-Allowed}
use siwx_go.Hub.Server.Counted.{Visit, served, started-IsCounted}
use siwx_go.Hub.Server.Routes.{
  limit_body, HttpRequest, Route, Server, RouteTable, routes, serve, started,
}
use siwx_go.Tests.Middleware.{lib}
use siwx_go.Tests.Server.{env, hub, draws, sevens}

abbrev pub config : Config
config = record {
  domain = codes "a.io";
  addr = codes ":8081";
  jwks_url = codes "http://a.io/.well-known/jwks.json";
  issuer_url = codes "https://i";
  audience = codes "a";
  statement = [];
  solana_chain = codes "mainnet";
  session_ttl_min = pos 10;
  contract_wallet_demo = true;
}

abbrev pub sign_in_request : HttpRequest
sign_in_request = record {
  method = codes "POST";
  path = codes "/auth/verify";
  authorization = [];
  nonce_cookie = codes "abcd1234";
  request_id = [];
  body = sevens 21;
}

-- A router that compares the whole path.
find_route : RouteTable → Bytes → Bytes → Option Route
unfolding equal
find_route [] method path = none
find_route ((m, p, r) ∷ table) method path =
    if equal m method && equal p path then some r else find_route table method path

abbrev unrouted : HttpRequest → Reply
unrouted _ = record { status = 404; body = text (codes "404 page not found"); cookie = kept }

abbrev pub running : Server
running = record { hub = hub; link_keys = []; me_keys = [] }

serve-Allowed_example :
    ((serve env lib config find_route unrouted sign_in_request draws none running).1.hub.ids
      ≡ running.hub.ids)
    ⊎ ((r : Route) × (find_route (routes config) sign_in_request.method sign_in_request.path
          ≡ some r)
        × Allowed env lib config sign_in_request draws none running
            (serve env lib config find_route unrouted sign_in_request draws none running).1.hub.ids
            r)
serve-Allowed_example =
    serve-Allowed env lib config sign_in_request draws none running find_route unrouted

abbrev visits : List Visit
visits =
    record {
      request = record sign_in_request { method = codes "GET"; path = codes "/auth/nonce" };
      draws = record draws { nonce_random = some (7 ∷ []) };
      fetched = none;
    }
    ∷ record { request = sign_in_request; draws = draws; fetched = none }
    ∷ []

started-IsCounted_example :
    IsCounted (served env lib config find_route unrouted visits (started (new_hub config))).hub
started-IsCounted_example = started-IsCounted env lib config find_route unrouted visits

-- The route of a sign-in, and a body that is cut off.
routed : find_route (routes config) (codes "POST") (codes "/auth/verify") ≡ some Route.verify
unfolding find_route routes equal
routed = refl

not_routed : find_route (routes config) (codes "GET") (codes "/auth/verify") ≡ none
unfolding find_route routes equal
not_routed = refl

cut : limit_body 2 (codes "abc") ≡ record { bytes = codes "ab"; cut_off = true }
unfolding limit_body
cut = refl
