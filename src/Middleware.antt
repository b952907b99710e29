-- ===== src/Middleware.antt =====
-- examples/middleware/jwt.go. The map of keys is read and written under a lock, in up to three steps of
-- one call of `get`; between them other requests may have changed it, so each step has its own state of the map.
-- The JWT library, `json.Unmarshal` and the network are parameters.
pub mod Cache
pub mod Admits
use siwx_go.Base.{
  ℕ, ◌%◌, ◌^◌, List, [], ◌∷◌, Bytes, codes, Bool, true, false, ◌&&◌, Option, none, some,
  if◌then◌else◌,
}
use siwx_go.Go.Base64.{raw_url_decode}
use siwx_go.Go.BigInt.{set_bytes}
use siwx_go.Go.Maps.{lookup, insert}
use siwx_go.Go.Strings.{has_prefix, trim_prefix}
use siwx_go.Hub.Issuer.{HubClaims, PublicKey}

-- `keys`
abbrev pub Keys : Type 0
Keys = List (Bytes × PublicKey)

-- An element of `doc.Keys`.
pub record JwkEntry : Type 0 where
  pub kid : Bytes
  pub n : Bytes
  pub e : Bytes

-- The body of the loop over `doc.Keys`. `int(....Int64())` is the 64 bits of the integer.
unfoldable pub add_entry : Keys → JwkEntry → Keys
unfolding raw_url_decode
add_entry fetched k = elim (raw_url_decode k.n) [
  | none ↦ fetched
  | some n ↦ elim (raw_url_decode k.e) [
    | none ↦ fetched
    | some e ↦ insert fetched k.kid (record { n = set_bytes n; e = set_bytes e % 2 ^ 64 })
  ]
]

unfoldable pub add_entries : Keys → List JwkEntry → Keys
unfolding add_entry
add_entries fetched [] = fetched
add_entries fetched (k ∷ ks) = add_entries (add_entry fetched k) ks

-- The loop over `fetched`.
unfoldable pub merge : Keys → Keys → Keys
merge keys [] = keys
merge keys ((kid, key) ∷ fetched) = merge (insert keys kid key) fetched

-- What the endpoint gives: no body, or a document, or a body that is none.
abbrev pub Response : Type 0
Response = Option (List JwkEntry)

-- `refresh`, with the map at its check and at its end.
unfoldable pub refresh : Bytes → Response → Keys → Keys → Option PublicKey × Keys
unfolding lookup add_entries merge
refresh kid response at_check at_end = elim (lookup at_check kid) [
  | some k ↦ (some k, at_end)
  | none ↦ elim response [
    | none ↦ (none, at_end)
    | some doc ↦ let keys = merge at_end (add_entries [] doc) in (lookup keys kid, keys)
  ]
]

-- `get`, with the map as it is first read too.
unfoldable pub get : Bytes → Response → Keys → Keys → Keys → Option PublicKey × Keys
unfolding refresh lookup
get kid response at_read at_check at_end = elim (lookup at_read kid) [
  | some k ↦ (some k, at_end)
  | none ↦ refresh kid response at_check at_end
]

-- A token, as the library parses it: the `kid` of its header is empty where it is missing or no text.
pub record Token : Type 0 where
  pub is_rsa : Bool
  pub kid : Bytes
  pub claims : HubClaims

-- golang-jwt: the parse, the option `WithValidMethods`, which is looked at in front of the key, and
-- what is checked behind it, the signature, the issuer, the audience and the times.
pub record JwtLib : Type 0 where
  pub parse : Bytes → Option Token
  pub is_rs256 : Token → Bool
  pub is_valid : Token → PublicKey → Bytes → Bytes → Bool

-- What the middleware comes to: a reply 401 with its text, or the claims in the context.
pub data Decision : Type 0 where
  aborted : Bytes → Decision
  admitted : HubClaims → Decision

abbrev pub bearer : Bytes
bearer = codes "Bearer "

abbrev pub invalid_token : Decision
invalid_token = aborted (codes "invalid token")

module _ (lib : JwtLib) (expected_issuer expected_aud : Bytes) where
  -- The key function, and what the library does with the key.
  unfoldable pub check_token : Token → Response → Keys → Keys → Keys → Decision × Keys
  unfolding get
  check_token t response at_read at_check at_end =
      let (found, keys) = get t.kid response at_read at_check at_end in
      if lib.is_rs256 t && t.is_rsa
      then elim found [
        | none ↦ (invalid_token, keys)
        | some key ↦ (
          if lib.is_valid t key expected_issuer expected_aud
              then admitted t.claims
              else invalid_token,
          keys,
        )
      ]
      else (invalid_token, at_end)

  -- `JWTAuth`
  unfoldable pub jwt_auth : Bytes → Response → Keys → Keys → Keys → Decision × Keys
  unfolding has_prefix trim_prefix check_token
  jwt_auth auth_header response at_read at_check at_end =
      if has_prefix auth_header bearer
      then elim (lib.parse (trim_prefix auth_header bearer)) [
        | none ↦ (invalid_token, at_end)
        | some t ↦ check_token t response at_read at_check at_end
      ]
      else (aborted (codes "missing bearer token"), at_end)

-- `c.Get("identityID")` behind the middleware.
unfoldable pub identity_id : Decision → Option Bytes
identity_id (aborted _) = none
identity_id (admitted claims) = some claims.subject

-- `GetMe`: the status, and the claims of the context.
unfoldable pub get_me : Option HubClaims → ℕ × Option HubClaims
get_me none = (401, none)
get_me (some claims) = (200, some claims)
