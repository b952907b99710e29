-- ===== src/Hub/Handlers/Http.antt =====
-- examples/hub/handlers.go: requests, replies and the state of the server. JSON stays outside: a body
-- is what `ShouldBindJSON` reads, and a reply is the value that is marshalled.
use siwx_go.Base.{ℕ, ◌*◌, ◌^◌, List, Bytes, Bool, Option}
use siwx_go.Go.Strconv.{ℤ}
use siwx_go.Hub.ContractWallet.{EthCrypto, Owners}
use siwx_go.Hub.Identities.{IdentityStore}
use siwx_go.Hub.Issuer.{Issuer, HubClaims, PublicKey, Jwk}
use siwx_go.Hub.Nonces.{NonceStore}
use siwx_go.Hub.Problems.{Problem}
use siwx_go.Hub.Recorder.{Recorder, CheckInfo}
use siwx_go.Siwx.Evm.Chain.{Address}
use siwx_go.Siwx.Registry.{Registry}
use siwx_go.Siwx.Verifier.{Clock}

-- `nonceTTL`, in nanoseconds.
abbrev pub nonce_ttl : ℕ
nonce_ttl = 600 * 10 ^ 9

-- `verifyRequest`
pub record VerifyRequest : Type 0 where
  pub message : Bytes
  pub signature : Bytes
  pub chain_id : Bytes

-- What can be read of a body: bytes, and whether the reader fails behind them, where the body is
-- longer than it allows.
pub record Received : Type 0 where
  pub bytes : Bytes
  pub cut_off : Bool

-- A request, as the handlers read it: its body, the cookie `siwx_nonce` and the header
-- `X-Request-ID`, both empty where they are missing.
pub record Request : Type 0 where
  pub body : Received
  pub nonce_cookie : Bytes
  pub request_id : Bytes

-- What is written of the cookie `siwx_nonce`.
pub data Cookie : Type 0 where
  kept cleared : Cookie
  set_nonce : Bytes → Cookie

-- What `GET /config` shows.
pub record Display : Type 0 where
  pub statement : Bytes
  pub solana_chain : Bytes
  pub session_ttl_min : ℤ
  pub contract_wallet_demo : Bool

-- `gin.H{"error": ...}` is `failure`; `nothing` is the reply of `gin.Recovery` to a panic.
pub data Body : Type 0 where
  problem : Problem → Body
  failure : Bytes → Body
  nonce_body : (nonce domain : Bytes) → Body
  verify_response : (token identity_id : Bytes) (checks : List CheckInfo) → Body
  linked_body : Bytes → Body
  wallet_body : (address owner : Bytes) → Body
  config_body : Display → Body
  jwks_body metrics_body text file : Bytes → Body
  claims_body : HubClaims → Body
  nothing : Body

pub record Reply : Type 0 where
  pub status : ℕ
  pub body : Body
  pub cookie : Cookie

-- `Hub`, with the counters of its recorder that the handlers raise. The registry and the issuer, which
-- never change, stand in `Env`.
pub record Hub : Type 0 where
  pub domain : Bytes
  pub nonces : NonceStore
  pub ids : IdentityStore
  pub recorder : Recorder
  pub nonces_issued : ℕ
  pub nonces_burned : ℕ
  pub tokens_issued : ℕ
  -- the map of the simulated chain, where it is enabled
  pub demo_wallets : Option Owners
  pub display : Display

-- What the handlers call: gin, `encoding/json`, go-ethereum and the JWT library; the registry, which may read
-- the map of the simulated chain; the issuer.
pub record Env : Type 0 where
  -- `ShouldBindJSON`
  pub bind_verify : Received → Option VerifyRequest
  pub bind_owner : Received → Option Bytes
  pub registry : Option Owners → Registry
  pub crypto : EthCrypto
  -- `common.IsHexAddress`, `common.HexToAddress`, `Address.Hex`
  pub is_hex_address : Bytes → Bool
  pub hex_to_address : Bytes → Address
  pub hex_address : Address → Bytes
  pub issuer : Issuer
  pub sign : HubClaims → Option Bytes
  -- the issuer's public key, and `json.Marshal` of its document
  pub public_key : PublicKey
  pub marshal_jwks : List Jwk → Option Bytes

-- What one request reads of the clocks and of `rand.Read`.
pub record Draws : Type 0 where
  -- `Issue`, with the two readings of its clock
  pub nonce_random : Option Bytes
  pub swept_at : ℕ
  pub issued_at : ℕ
  -- `Burn`
  pub burned_at : ℕ
  -- `newAttemptID` of the hub and of the registry
  pub attempt_random : Option Bytes
  pub registry_random : Option Bytes
  -- `RealClock`, in the registry
  pub wall : Clock
  -- `UpsertByWallet`
  pub id_random : Option Bytes
  -- the issuer's `time.Now`
  pub token_at : ℕ
