-- ===== src/Hub/Server/Session.antt =====
-- examples/hub/main.go, handlers.go and examples/middleware/jwt.go: a sign-in, and what its token is good
-- for.
use siwx_go.Base.{ℕ, ◌+◌, ◌^◌, ◌<◌, ◌++◌, Bytes, none, some, ◌≡◌, ◌⊎◌, refl, ap, inl, inr, List}
use siwx_go.Go.Maps.{lookup}
use siwx_go.Hub.Config.{Config}
use siwx_go.Hub.Handlers.Http.{Request, Hub, Env, Draws, verify_response}
use siwx_go.Hub.Handlers.Token.{post_verify-IsMade}
use siwx_go.Hub.Handlers.{post_verify, post_link}
use siwx_go.Hub.Issuer.{HubClaims, mock_kid, jwks_doc, token_ttl, numeric_date}
use siwx_go.Hub.Recorder.{CheckInfo}
use siwx_go.Hub.Server.Routes.{HttpRequest, Server, received, auth, serve_link, serve_me}
use siwx_go.Middleware.Admits.{IsSigner, issued_token-admitted}
use siwx_go.Middleware.Cache.{entries_of}
use siwx_go.Middleware.{
  Keys, Response, JwtLib, Decision, aborted, admitted, bearer, identity_id, get_me,
}

-- What a middleware needs of its cache and of the key endpoint.
abbrev pub KnowsKey : Env → Response → Keys → Type 0
KnowsKey env fetched keys =
    (lookup keys mock_kid ≡ some env.public_key)
    ⊎ ((fetched ≡ some (entries_of (jwks_doc env.public_key))) × (lookup keys mock_kid ≡ none))

admitted_as :
    (decision : Decision) (id : Bytes)
    → identity_id decision ≡ some id
    → (claims : HubClaims) × (decision ≡ admitted claims) × (claims.subject ≡ id)
unfolding identity_id
admitted_as (aborted reason) id h = cc
admitted_as (admitted claims) id h = (claims, refl, cc)

module _ (env : Env) (lib : JwtLib) (cfg : Config) (next : HttpRequest) (fetched : Response)
    (s : Server) where
  serve_me-known :
      (id : Bytes)
      → identity_id (auth env lib cfg next fetched s.me_keys).0 ≡ some id
      → (serve_me env lib cfg next fetched s).0.status ≡ 200
  unfolding serve_me get_me
  serve_me-known id h = let (claims, e, _) = admitted_as _ id h in rw (serve_me, e) refl

  serve_link-known :
      (id : Bytes) (d : Draws)
      → identity_id (auth env lib cfg next fetched s.link_keys).0 ≡ some id
      → ((serve_link env lib cfg next d fetched s).0
          ≡ (post_link env (some id) (received next) d s.hub).0)
        × ((serve_link env lib cfg next d fetched s).1.hub
            ≡ (post_link env (some id) (received next) d s.hub).1)
  unfolding serve_link identity_id
  serve_link-known id d h =
      let (claims, e, same) = admitted_as _ id h in
      (
        rw (serve_link, e)
            (ap (λ (x : Bytes). (post_link env (some x) (received next) d s.hub).0) same),
        rw (serve_link, e)
            (ap (λ (x : Bytes). (post_link env (some x) (received next) d s.hub).1) same),
      )

module _ (env : Env) (lib : JwtLib) (cfg : Config) (now : ℕ)
    (signer : IsSigner lib env.sign env.public_key now) (small : env.public_key.e < 2 ^ 64)
    (same_issuer : cfg.issuer_url ≡ env.issuer.issuer_url)
    (same_audience : cfg.audience ≡ env.issuer.audience) where
  -- The middleware lets the bearer of a token through, as the identity that the sign-in has shown.
  signed_in-admitted :
      (req : Request) (d : Draws) (h : Hub) (token id : Bytes) (checks : List CheckInfo)
      (next : HttpRequest) (fetched : Response) (keys : Keys)
      → (post_verify env req d h).0.body ≡ verify_response token id checks
      → now < numeric_date (d.token_at + token_ttl)
      → next.authorization ≡ bearer ++ token
      → KnowsKey env fetched keys
      → identity_id (auth env lib cfg next fetched keys).0 ≡ some id
  signed_in-admitted req d h token id checks next fetched keys shown fresh header knows =
      let (ws, made) = post_verify-IsMade env d token id checks req h shown in
      rw (header, same_issuer, same_audience)
        (issued_token-admitted lib env.sign env.public_key now d.token_at env.issuer id token ws
          fetched keys keys keys signer small made fresh
          (elim knows [ inl k ↦ inl k | inr (f, a) ↦ inr (f, (a, a)) ]))

  -- A client that has signed in is known by its token until the second in which its hour ends: `/me` answers it 200, and
  -- `/auth/link` hands its request to `postLink` with the identity that the sign-in has shown.
  -- The configuration has the issuer and the audience of the tokens; each cache holds the key of the
  -- issuer, or has no key of its name and the endpoint serves the document of the issuer; the JWT
  -- library reads back what it signed of claims with whole seconds, and finds it valid under the
  -- issuer's key until it expires, and the exponent of the key is below 2^64.
  pub signed_in-known :
      (req : Request) (d : Draws) (h : Hub) (token id : Bytes) (checks : List CheckInfo)
      (next : HttpRequest) (d' : Draws) (fetched : Response) (s : Server)
      → (post_verify env req d h).0.body ≡ verify_response token id checks
      → now < numeric_date (d.token_at + token_ttl)
      → next.authorization ≡ bearer ++ token
      → KnowsKey env fetched s.me_keys
      → KnowsKey env fetched s.link_keys
      → ((serve_me env lib cfg next fetched s).0.status ≡ 200)
        × (((serve_link env lib cfg next d' fetched s).0
              ≡ (post_link env (some id) (received next) d' s.hub).0)
            × ((serve_link env lib cfg next d' fetched s).1.hub
                ≡ (post_link env (some id) (received next) d' s.hub).1))
  signed_in-known req d h token id checks next d' fetched s shown fresh header me_knows link_knows =
      (
        serve_me-known env lib cfg next fetched s id (
            signed_in-admitted req d h token id checks next fetched s.me_keys shown fresh header
              me_knows),
        serve_link-known env lib cfg next fetched s id d' (
            signed_in-admitted req d h token id checks next fetched s.link_keys shown fresh header
              link_knows),
      )
