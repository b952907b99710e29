-- ===== src/Tests/Server.antt =====
-- The handlers of the example server at one sign-in.
use siwx_go.Base.{
  ℕ, [], ◌∷◌, ◌++◌, Bytes, codes, true, false, ◌||◌, Option, none, some, equal, replicate, ◌≡◌, ◌↔◌,
  refl,
}
use siwx_go.Go.Base64.{std_decode}
use siwx_go.Go.Maps.{lookup}
use siwx_go.Go.Strconv.{pos}
use siwx_go.Go.Strings.{cut}
use siwx_go.Siwx.Evm.{verify, domain_error, not_before_error, expiry_error, nonce_error}
use siwx_go.Hub.Handlers.Http.{VerifyRequest, Received, Request, cleared, Hub, Env, Draws}
use siwx_go.Hub.Handlers.Replay.{stop, IsTurnedAway, no_replay}
use siwx_go.Hub.Handlers.{post_verify, post_link, burn_cookie, read_body, presented_by}
use siwx_go.Hub.Identities.Consistent.{IsConsistent, upserting, linking, Calls, Calls-IsConsistent}
use siwx_go.Hub.Identities.Consistent as Consistent
use siwx_go.Hub.Identities.{IdentityStore, upsert_by_wallet}
use siwx_go.Hub.Issuer.{HubClaims}
use siwx_go.Hub.Nonces.{burn}
use siwx_go.Hub.Problems.Statuses.{is_unauthorized, written_problem-status}
use siwx_go.Hub.Problems.{written_problem}
use siwx_go.Hub.Server.SignIn.{IsSigned, post_verify-IsSigned}
use siwx_go.Hub.Server.{hub_registry}
use siwx_go.Siwx.Caip.{Caip10, re_namespace, re_reference, re_address, parse_caip10}
use siwx_go.Siwx.Errors.{Sentinel, is}
use siwx_go.Siwx.Solana.{entries}
use siwx_go.Tests.Clock.{unary, known_signature}
use siwx_go.Tests.Evm.{steady, crypto, toy, demo}

written_problem-status_example :
    (((written_problem (Sentinel.rpc ∷ []) []).status ≡ 400)
      ↔ (is (Sentinel.rpc ∷ []) Sentinel.malformed ≡ true))
    × (((written_problem (Sentinel.rpc ∷ []) []).status ≡ 500) ↔ (
        (is (Sentinel.rpc ∷ []) Sentinel.malformed
          || is_unauthorized (Sentinel.rpc ∷ [])
          || is (Sentinel.rpc ∷ []) Sentinel.unsupported_namespace)
        ≡ false))
written_problem-status_example = written_problem-status (Sentinel.rpc ∷ []) []

abbrev nobody : IdentityStore
nobody = record { wallet_to_id = []; id_to_wallets = [] }

abbrev wallet_1 : Caip10
wallet_1 = record {
  chain_id = record { namespace = codes "eip155"; reference = codes "1" };
  address = codes "0x05";
}

abbrev somebody : IdentityStore
somebody = (upsert_by_wallet (some (replicate 16 2)) wallet_1 nobody).1

nobody-IsConsistent : IsConsistent nobody
unfolding lookup
nobody-IsConsistent w id h = absurd cc

Calls-IsConsistent_example : IsConsistent somebody
unfolding lookup
Calls-IsConsistent_example =
    Calls-IsConsistent nobody somebody
      (Consistent.next nobody somebody somebody
        (upserting (some (replicate 16 2)) wallet_1 refl refl) (Consistent.stop somebody))
      nobody-IsConsistent

abbrev bind : Received → Option VerifyRequest
bind b = some (record { message = codes "aGk="; signature = b.bytes; chain_id = codes "eip155:1" })

abbrev sign : HubClaims → Option Bytes
sign c = some c.subject

abbrev pub env : Env
env = record {
  bind_verify = bind;
  bind_owner = λ b. none;
  registry = hub_registry known_signature unary entries toy demo;
  crypto = crypto;
  is_hex_address = λ b. false;
  hex_to_address = λ b. b;
  hex_address = λ b. b;
  issuer = record { issuer_url = codes "https://i"; audience = codes "a" };
  sign = sign;
  public_key = record { n = 3233; e = 17 };
  marshal_jwks = λ ks. none;
}

abbrev pub hub : Hub
hub = record {
  domain = codes "a.io";
  nonces = (codes "abcd1234", 100) ∷ [];
  ids = nobody;
  recorder = record {
    attempts_total = 0;
    failures_total = [];
    other_failures = 0;
    checks_total = [];
    checks = [];
  };
  nonces_issued = 1;
  nonces_burned = 0;
  tokens_issued = 0;
  demo_wallets = none;
  display = record {
    statement = [];
    solana_chain = codes "mainnet";
    session_ttl_min = pos 10;
    contract_wallet_demo = false;
  };
}

abbrev pub draws : Draws
draws = record {
  nonce_random = none;
  swept_at = 5;
  issued_at = 5;
  burned_at = 5;
  attempt_random = some (replicate 16 3);
  registry_random = none;
  wall = steady;
  id_random = some (replicate 16 2);
  token_at = 5;
}

-- Sixty-five bytes 0x07 in base-64.
abbrev pub sevens : ℕ → Bytes
sevens Prim.Native.Nat.zero = codes "Bwc="
sevens (Prim.Native.Nat.suc n) = codes "BwcH" ++ sevens n

abbrev pub request : Request
request = record {
  body = record { bytes = sevens 21; cut_off = false };
  nonce_cookie = codes "abcd1234";
  request_id = [];
}

signed_in_here : (post_verify env request draws hub).0.status ≡ 200
unfolding post_verify read_body presented_by std_decode equal burn_cookie burn hub_registry toy
    unary cut re_namespace re_reference lookup verify domain_error not_before_error expiry_error
    nonce_error parse_caip10 re_address
signed_in_here = refl

cleared_here : (post_verify env request draws hub).0.cookie ≡ cleared
unfolding post_verify read_body presented_by std_decode equal burn_cookie burn hub_registry toy
    unary cut re_namespace re_reference lookup verify domain_error not_before_error expiry_error
    nonce_error parse_caip10 re_address
cleared_here = refl

post_verify-IsSigned_example : IsSigned known_signature unary entries toy demo env draws request hub
post_verify-IsSigned_example =
    post_verify-IsSigned known_signature unary entries toy demo env draws request hub refl
      signed_in_here

abbrev after : Hub
after = (post_verify env request draws hub).1

no_replay_example :
    IsTurnedAway after (post_verify env request draws after)
    × IsTurnedAway after (post_link env (some (codes "id_1")) request draws after)
no_replay_example =
    no_replay env request request draws draws (some (codes "id_1")) hub after cleared_here
      (stop after) refl
