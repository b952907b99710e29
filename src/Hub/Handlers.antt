-- ===== src/Hub/Handlers.antt =====
-- examples/hub/handlers.go. A handler is a function of the request, of what it reads of the clocks and
-- of `rand.Read`, and of the server's state. `getMetrics` is in Hub.Metrics.
pub mod Http
pub mod Keeps
pub mod Spend
pub mod Replay
pub mod Login
pub mod Counted
pub mod Changes
pub mod Token
use siwx_go.Base.{
  ℕ, ◌+◌, List, [], ◌∷◌, Bytes, codes, Bool, true, false, Option, none, some, if◌then◌else◌, equal,
}
use siwx_go.Go.Base64.{std_decode}
use siwx_go.Go.Hex.{hex_encode}
use siwx_go.Go.Strings.{trim_space}
use siwx_go.Hub.ContractWallet as Demo
use siwx_go.Hub.Handlers.Http.{
  nonce_ttl, VerifyRequest, Request, Cookie, kept, cleared, set_nonce, Body, problem, failure,
  nonce_body, verify_response, linked_body, wallet_body, config_body, jwks_body, nothing, Reply,
  Hub, Env, Draws,
}
use siwx_go.Hub.Identities.{
  upserted, no_random, upsert_by_wallet, done, identity_not_found, link_wallet, wallets,
}
use siwx_go.Hub.Issuer.{issue_token, jwks_doc}
use siwx_go.Hub.Nonces.{burned, nonce_mismatch, issue, burn}
use siwx_go.Hub.Problems.{written_problem}
use siwx_go.Hub.Recorder.{Recorder, CheckInfo, drain_checks, on_event}
use siwx_go.Siwx.Caip.{Caip2, parsed, refused, string10, parse_caip2}
use siwx_go.Siwx.Errors.{Sentinel, Error, Outcome, returned, failed, crashed}
use siwx_go.Siwx.Observer.{Event}
use siwx_go.Siwx.Registry.{verify}
use siwx_go.Siwx.Verifier.{observer, VerifyOpts, Identity, Run}

-- `writeProblem`
unfoldable pub write_problem : Error → Cookie → Request → Reply
unfolding written_problem
write_problem e cookie req =
    let p = written_problem e req.request_id in
    record { status = p.status; body = problem p; cookie = cookie }

-- `c.JSON(http.StatusInternalServerError, gin.H{"error": text})`
abbrev pub internal_error : Bytes → Cookie → Reply
internal_error text cookie = record { status = 500; body = failure text; cookie = cookie }

-- A panic, behind `clearNonceCookie`.
abbrev pub recovered : Reply
recovered = record { status = 500; body = nothing; cookie = cleared }

-- `getNonce`
unfoldable pub get_nonce : Draws → Hub → Reply × Hub
unfolding issue
get_nonce d h =
    let (made, store) = issue d.nonce_random d.swept_at d.issued_at nonce_ttl h.nonces in
    elim made [
      | none ↦ (internal_error (codes "nonce issue failed") kept, record h { nonces = store })
      | some nonce ↦ (
        record { status = 200; body = nonce_body nonce h.domain; cookie = set_nonce nonce },
        record h { nonces = store; nonces_issued = h.nonces_issued + 1 },
      )
    ]

-- `getConfig`
unfoldable pub get_config : Hub → Reply
get_config h = record { status = 200; body = config_body h.display; cookie = kept }

-- What `postVerify` and `postLink` read of the body: the chain, the message and the signature.
pub record Presented : Type 0 where
  pub chain : Caip2
  pub msg : Bytes
  pub sig : Bytes

unfoldable pub presented_by : VerifyRequest → Option Presented
unfolding std_decode parse_caip2
presented_by req = elim (std_decode req.message) [
  | none ↦ none
  | some msg ↦ elim (std_decode req.signature) [
    | none ↦ none
    | some sig ↦ elim (parse_caip2 req.chain_id) [
      | refused _ ↦ none
      | parsed chain ↦ some (record { chain = chain; msg = msg; sig = sig })
    ]
  ]
]

-- Every callback of the recorder, for the events of a run.
unfoldable pub record_events : List Event → Recorder → Recorder
unfolding on_event
record_events [] r = r
record_events (e ∷ es) r = record_events es (on_event e r)

-- The options of both handlers.
abbrev pub opts_for : Hub → Bytes → Draws → Bytes → VerifyOpts
opts_for h expected_nonce d attempt_id = record {
  expected_domain = h.domain;
  expected_nonce = expected_nonce;
  observer = observer 0;
  clock = some d.wall;
  attempt_id = attempt_id;
}

-- The cookie and the call of `Burn`, in front of either handler.
unfoldable pub burn_cookie : Request → Draws → (Hub → Reply × Hub) → Hub → Reply × Hub
unfolding burn write_problem
burn_cookie req d next h =
    if equal req.nonce_cookie []
    then (write_problem (Sentinel.nonce_mismatch ∷ []) kept req, h)
    else let (answer, store) = burn req.nonce_cookie d.burned_at h.nonces in
      let h' = record h { nonces = store } in
      elim answer [
        | nonce_mismatch ↦ (write_problem (Sentinel.nonce_mismatch ∷ []) cleared req, h')
        | burned ↦ next h'
      ]

module _ (env : Env) where
  -- `getJWKS`
  unfoldable pub get_jwks : Reply
  unfolding jwks_doc
  get_jwks = elim (env.marshal_jwks (jwks_doc env.public_key)) [
    | none ↦ internal_error (codes "jwks error") kept
    | some doc ↦ record { status = 200; body = jwks_body doc; cookie = kept }
  ]

  -- `ShouldBindJSON` and the decoding of the three fields.
  unfoldable pub read_body : Request → Option Presented
  unfolding presented_by
  read_body req = elim (env.bind_verify req.body) [ none ↦ none | some r ↦ presented_by r ]

  -- The call of the registry.
  abbrev pub run_for : Hub → Request → Draws → Bytes → Presented → Run Identity
  run_for h req d attempt_id p =
      verify d.wall d.registry_random (env.registry h.demo_wallets) p.chain p.msg p.sig
        (opts_for h req.nonce_cookie d attempt_id)

  -- `postVerify` from the call of `Issue` on.
  unfoldable pub token_reply : Draws → Bytes → List CheckInfo → Hub → Reply × Hub
  unfolding wallets issue_token
  token_reply d identity_id checks h = elim (wallets identity_id h.ids) [
    | refused _ ↦ (internal_error (codes "wallets lookup failed") cleared, h)
    | parsed ws ↦ elim (issue_token env.sign env.issuer d.token_at identity_id ws) [
      | none ↦ (internal_error (codes "token issue failed") cleared, h)
      | some token ↦ (
        record { status = 200; body = verify_response token identity_id checks; cookie = cleared },
        record h { tokens_issued = h.tokens_issued + 1 },
      )
    ]
  ]

  -- `postVerify` from the call of `UpsertByWallet` on.
  unfoldable pub sign_in : Draws → Identity → List CheckInfo → Hub → Reply × Hub
  unfolding upsert_by_wallet token_reply
  sign_in d id checks h =
      let (made, store) = upsert_by_wallet d.id_random id.account h.ids in
      elim made [
        | no_random ↦
            (internal_error (codes "identity upsert failed") cleared, record h { ids = store })
        | upserted identity_id _ ↦ token_reply d identity_id checks (record h { ids = store })
      ]

  -- `postVerify` from the call of `Verify` on.
  unfoldable pub verify_attempt : Request → Draws → Presented → Bytes → Hub → Reply × Hub
  unfolding verify record_events drain_checks sign_in write_problem
  verify_attempt req d p attempt_id h =
      let run = run_for h req d attempt_id p in
      let seen = record_events run.events h.recorder in
      let (checks, drained) = drain_checks attempt_id seen in
      elim run.outcome [
        | crashed ↦ (recovered, record h { recorder = seen })
        | failed e ↦ (write_problem e cleared req, record h { recorder = drained })
        | returned id ↦ sign_in d id checks (record h { recorder = drained })
      ]

  -- `postVerify` from the successful `Burn` on.
  unfoldable pub verify_burned : Request → Draws → Presented → Hub → Reply × Hub
  unfolding verify_attempt hex_encode
  verify_burned req d p h =
      let h' = record h { nonces_burned = h.nonces_burned + 1 } in
      elim d.attempt_random [
        | none ↦ (recovered, h')
        | some b ↦ verify_attempt req d p (hex_encode b) h'
      ]

  -- `postLink` from the call of `Verify` on.
  unfoldable pub link_burned : Bytes → Request → Draws → Presented → Hub → Reply × Hub
  unfolding verify record_events link_wallet write_problem
  link_burned identity_id req d p h =
      let run = run_for h req d [] p in
      let h' = record h { recorder = record_events run.events h.recorder } in
      elim run.outcome [
        | crashed ↦ (recovered, h')
        | failed e ↦ (write_problem e cleared req, h')
        | returned id ↦
            let (linking, store) = link_wallet identity_id id.account h'.ids in
            let h'' = record h' { ids = store } in
            elim linking [
              | identity_not_found ↦ (internal_error (codes "link failed") cleared, h'')
              | done ↦ (
                record { status = 200; body = linked_body (string10 id.account); cookie = cleared },
                h'',
              )
            ]
      ]

  -- `postVerify`
  unfoldable pub post_verify : Request → Draws → Hub → Reply × Hub
  unfolding read_body burn_cookie verify_burned write_problem
  post_verify req d h = elim (read_body req) [
    | none ↦ (write_problem (Sentinel.malformed ∷ []) kept req, h)
    | some p ↦ burn_cookie req d (verify_burned req d p) h
  ]

  -- `postLink`, with the identity that the middleware has set.
  unfoldable pub post_link : Option Bytes → Request → Draws → Hub → Reply × Hub
  unfolding read_body burn_cookie link_burned write_problem
  post_link none req d h =
      (record { status = 401; body = failure (codes "missing identity"); cookie = kept }, h)
  post_link (some identity_id) req d h = elim (read_body req) [
    | none ↦ (write_problem (Sentinel.malformed ∷ []) kept req, h)
    | some p ↦ burn_cookie req d (link_burned identity_id req d p) h
  ]

  -- `postRegisterContractWallet`, from `common.IsHexAddress` on.
  unfoldable pub register_owner : Request → Bytes → Demo.Owners → Hub → Reply × Hub
  unfolding Demo.register write_problem
  register_owner req owner owners h =
      let address = env.hex_to_address owner in
      let (wallet, owners') = Demo.register env.crypto address owners in
      if env.is_hex_address owner
      then (
        record {
          status = 200;
          body = wallet_body (env.hex_address wallet) (env.hex_address address);
          cookie = kept;
        },
        record h { demo_wallets = some owners' },
      )
      else (write_problem (Sentinel.malformed ∷ []) kept req, h)

  -- `postRegisterContractWallet`
  unfoldable pub post_register_contract_wallet : Request → Hub → Reply × Hub
  unfolding register_owner trim_space write_problem
  post_register_contract_wallet req h = elim h.demo_wallets [
    | none ↦ (
      record {
        status = 404;
        body = failure (codes "contract wallet demo disabled");
        cookie = kept;
      },
      h,
    )
    | some owners ↦ elim (env.bind_owner req.body) [
      | none ↦ (write_problem (Sentinel.malformed ∷ []) kept req, h)
      | some owner ↦ register_owner req (trim_space owner) owners h
    ]
  ]
