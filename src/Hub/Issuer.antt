-- ===== src/Hub/Issuer.antt =====
-- examples/hub/issuer.go: the claims of a token. Signing and marshalling are the libraries'.
use siwx_go.Base.{ℕ, ◌+◌, ◌*◌, ◌/◌, ◌^◌, List, [], ◌∷◌, map, Bytes, codes, Option, none, some}
use siwx_go.Go.Base64.{raw_url_encode}
use siwx_go.Go.BigInt.{to_bytes}
use siwx_go.Siwx.Caip.{Caip10, string10}

-- `tokenTTL`, in nanoseconds.
abbrev pub token_ttl : ℕ
token_ttl = 3600 * 10 ^ 9

-- `mockIssuer`, its key apart.
pub record Issuer : Type 0 where
  pub issuer_url : Bytes
  pub audience : Bytes

-- `newIssuer`: `key` is what `rsa.GenerateKey` gives.
unfoldable pub new_issuer {ℓ} : {K : Type ℓ} → Option K → Bytes → Bytes → Option (K × Issuer)
new_issuer none issuer_url audience = none
new_issuer (some key) issuer_url audience =
    some (key, record { issuer_url = issuer_url; audience = audience })

-- `hubClaims`
pub record HubClaims : Type 0 where
  pub subject : Bytes
  pub issuer : Bytes
  pub audience : Bytes
  pub issued_at : ℕ
  pub expires_at : ℕ
  pub wallets : List Bytes

-- `jwt.NewNumericDate`, of golang-jwt: it is documented to truncate to `jwt.TimePrecision`, which is a
-- second and which the program leaves as it is.
abbrev pub numeric_date : ℕ → ℕ
numeric_date t = t / 10 ^ 9 * 10 ^ 9

-- What `Issue` signs.
unfoldable pub claims_for : Issuer → ℕ → Bytes → List Caip10 → HubClaims
claims_for m now identity_id wallets = record {
  subject = identity_id;
  issuer = m.issuer_url;
  audience = m.audience;
  issued_at = numeric_date now;
  expires_at = numeric_date (now + token_ttl);
  wallets = map string10 wallets;
}

-- `Issue`: `sign` is `SignedString` with the issuer's key, under RS256 and `mockKid`.
unfoldable pub issue_token :
    (HubClaims → Option Bytes) → Issuer → ℕ → Bytes → List Caip10 → Option Bytes
unfolding claims_for
issue_token sign m now identity_id wallets = sign (claims_for m now identity_id wallets)

abbrev pub mock_kid : Bytes
mock_kid = codes "mock-1"

-- `rsa.PublicKey`
pub record PublicKey : Type 0 where
  pub n : ℕ
  pub e : ℕ

-- `jwk`
pub record Jwk : Type 0 where
  pub kty : Bytes
  pub use_for : Bytes
  pub alg : Bytes
  pub kid : Bytes
  pub n : Bytes
  pub e : Bytes

-- The document of `JWKS`, in front of `json.Marshal`. The exponent is positive.
unfoldable pub jwks_doc : PublicKey → List Jwk
unfolding raw_url_encode to_bytes
jwks_doc key =
    record {
      kty = codes "RSA";
      use_for = codes "sig";
      alg = codes "RS256";
      kid = mock_kid;
      n = raw_url_encode (to_bytes key.n);
      e = raw_url_encode (to_bytes key.e);
    }
    ∷ []
