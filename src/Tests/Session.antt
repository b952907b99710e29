-- ===== src/Tests/Session.antt =====
-- A sign-in, and a later request with its token.
use siwx_go.Base.{[], ◌∷◌, ◌++◌, codes, true, some, equal, ◌≡◌, refl, inr, arith, List}
use siwx_go.Go.Base64.{std_decode}
use siwx_go.Go.Maps.{lookup, delete}
use siwx_go.Go.Strings.{cut}
use siwx_go.Hub.Handlers.Http.{verify_response, Env}
use siwx_go.Hub.Handlers.{post_verify, post_link, burn_cookie, read_body, presented_by}
use siwx_go.Hub.Issuer.{jwks_doc}
use siwx_go.Hub.Nonces.{burn}
use siwx_go.Hub.Recorder.{CheckInfo}
use siwx_go.Hub.Server.Routes.{HttpRequest, received, serve_me, serve_link}
use siwx_go.Hub.Server.Session.{signed_in-known}
use siwx_go.Hub.Server.{hub_registry}
use siwx_go.Middleware.Cache.{entries_of}
use siwx_go.Middleware.{bearer, Response}
use siwx_go.Siwx.Caip.{re_namespace, re_reference, re_address, parse_caip10}
use siwx_go.Siwx.Evm.{verify, domain_error, not_before_error, expiry_error, nonce_error}
use siwx_go.Tests.Clock.{unary}
use siwx_go.Tests.Evm.{toy}
use siwx_go.Tests.Middleware.{session_id, sign, key, lib, signer}
use siwx_go.Tests.Routes.{config, sign_in_request, running}
use siwx_go.Tests.Server.{env, hub, draws, request}

abbrev session_env : Env
session_env = record env { sign = sign; public_key = key }

abbrev checks : List CheckInfo
checks =
    record { name = codes "domain"; passed = true }
    ∷ record { name = codes "not_before"; passed = true }
    ∷ record { name = codes "expiry"; passed = true }
    ∷ record { name = codes "nonce"; passed = true }
    ∷ record { name = codes "signature"; passed = true }
    ∷ []

shown :
    (post_verify session_env request draws hub).0.body
    ≡ verify_response (codes "tok") session_id checks
unfolding post_verify read_body presented_by std_decode equal burn_cookie burn hub_registry toy
    unary cut re_namespace re_reference lookup verify domain_error not_before_error expiry_error
    nonce_error parse_caip10 re_address sign delete
shown = refl

abbrev with_token : HttpRequest
with_token = record sign_in_request { authorization = bearer ++ codes "tok" }

abbrev served_keys : Response
served_keys = some (entries_of (jwks_doc key))

signed_in-known_example :
    ((serve_me session_env lib config with_token served_keys running).0.status ≡ 200)
    × (((serve_link session_env lib config with_token draws served_keys running).0
          ≡ (post_link session_env (some session_id) (received with_token) draws running.hub).0)
        × ((serve_link session_env lib config with_token draws served_keys running).1.hub
            ≡ (post_link session_env (some session_id) (received with_token) draws running.hub).1))
unfolding lookup
signed_in-known_example =
    signed_in-known session_env lib config 6 signer (omega arith) refl refl request draws hub
      (codes "tok") session_id checks with_token draws served_keys running shown (omega arith) refl
      (inr (refl, refl)) (inr (refl, refl))
