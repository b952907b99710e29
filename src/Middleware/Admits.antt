-- ===== src/Middleware/Admits.antt =====
-- examples/middleware/jwt.go: the requests that `JWTAuth` lets through, and the tokens of the issuer.
use siwx_go.Base.{
  arith, ℕ, ◌<◌, ◌^◌, ◌+◌, List, [], ◌++◌, Bytes, true, ◌&&◌, Option, none, some, ◌≡◌, ◌↔◌, ◌⊎◌,
  refl, ap, ◌∙◌, inl, inr, Bool-cases, Option-cases, drop,
}
use siwx_go.Go.Maps.{lookup}
use siwx_go.Go.Strings.Laws.{has_prefix-append, append_of_has_prefix}
use siwx_go.Go.Strings.{has_prefix}
use siwx_go.Hub.Issuer.{
  Issuer, HubClaims, PublicKey, mock_kid, jwks_doc, token_ttl, numeric_date, claims_for,
  issue_token,
}
use siwx_go.Middleware.Cache.{entries_of, published_key_found, get_cached}
use siwx_go.Middleware.{
  Keys, Response, get, Token, JwtLib, aborted, admitted, bearer, check_token, jwt_auth, identity_id,
}
use siwx_go.Siwx.Caip.{Caip10}

module _ (lib : JwtLib) (iss aud : Bytes) (response : Response)
    (at_read at_check at_end : Keys) where
  -- The header carries a token that the library parses and finds signed under RS256 with the key that
  -- the cache gives for its `kid`, for the expected issuer and audience.
  pub record IsAdmitted (auth_header : Bytes) (claims : HubClaims) : Type 0 where
    pub text : Bytes
    pub token : Token
    pub key : PublicKey
    pub header_is : auth_header ≡ bearer ++ text
    pub parses : lib.parse text ≡ some token
    pub rs256 : (lib.is_rs256 token && token.is_rsa) ≡ true
    pub key_is : (get token.kid response at_read at_check at_end).0 ≡ some key
    pub valid : lib.is_valid token key iss aud ≡ true
    pub claims_are : token.claims ≡ claims

  aborted_not : {b : Bytes} {c : HubClaims} → ¬ (aborted b ≡ admitted c)
  aborted_not h = cc

  admitted_inj : {b c : HubClaims} → admitted b ≡ admitted c → b ≡ c
  admitted_inj h = cc

  let_through :
      (auth_header : Bytes) (claims : HubClaims)
      → (jwt_auth lib iss aud auth_header response at_read at_check at_end).0 ≡ admitted claims
      → IsAdmitted auth_header claims
  unfolding jwt_auth check_token
  let_through auth_header claims h = elim (Bool-cases (has_prefix auth_header bearer)) [
    | inr e ↦ absurd (aborted_not (rw (jwt_auth, e) at h))
    | inl e ↦ elim (Option-cases (lib.parse (drop 7 auth_header))) [
      | inl f ↦ absurd (aborted_not (rw (jwt_auth, e, f) at h))
      | inr (t, f) ↦ elim (Bool-cases (lib.is_rs256 t && t.is_rsa)) [
        | inr g ↦ absurd (aborted_not (rw (jwt_auth, e, f, check_token, g) at h))
        | inl g ↦ elim (Option-cases (get t.kid response at_read at_check at_end).0) [
          | inl k ↦ absurd (aborted_not (rw (jwt_auth, e, f, check_token, g, k) at h))
          | inr (key, k) ↦ elim (Bool-cases (lib.is_valid t key iss aud)) [
            | inr v ↦ absurd (aborted_not (rw (jwt_auth, e, f, check_token, g, k, v) at h))
            | inl v ↦ record {
              text = drop 7 auth_header;
              token = t;
              key = key;
              header_is = append_of_has_prefix auth_header bearer e;
              parses = f;
              rs256 = g;
              key_is = k;
              valid = v;
              claims_are = admitted_inj (rw (jwt_auth, e, f, check_token, g, k, v) at h);
            }
          ]
        ]
      ]
    ]
  ]

  is_let_through :
      (auth_header : Bytes) (claims : HubClaims)
      → IsAdmitted auth_header claims
      → (jwt_auth lib iss aud auth_header response at_read at_check at_end).0 ≡ admitted claims
  unfolding jwt_auth check_token
  is_let_through auth_header claims a =
      let prefixed : has_prefix auth_header bearer ≡ true =
        ap (λ s. has_prefix s bearer) a.header_is ∙ has_prefix-append bearer a.text in
      let trimmed : drop 7 auth_header ≡ a.text = ap (drop 7) a.header_is in
      rw (jwt_auth, prefixed, trimmed, a.parses, check_token, a.rs256, a.key_is, a.valid)
        (ap admitted a.claims_are)

  -- `JWTAuth` lets a request through, with these claims, exactly if its header is "Bearer " and a token
  -- that the library parses to these claims, that is signed with RS256, and that is valid under the key
  -- that the cache gives for its `kid`, for the expected issuer and audience.
  pub jwt_auth_iff :
      (auth_header : Bytes) (claims : HubClaims)
      → ((jwt_auth lib iss aud auth_header response at_read at_check at_end).0 ≡ admitted claims)
        ↔ IsAdmitted auth_header claims
  jwt_auth_iff auth_header claims =
      (let_through auth_header claims, is_let_through auth_header claims)

-- The dates of the claims are whole seconds, which the JSON of a token does not lose.
pub record IsWhole (c : HubClaims) : Type 0 where
  pub issued : numeric_date c.issued_at ≡ c.issued_at
  pub expires : numeric_date c.expires_at ≡ c.expires_at

numeric_date-numeric_date : (t : ℕ) → numeric_date (numeric_date t) ≡ numeric_date t
numeric_date-numeric_date t = omega arith

-- What the middleware relies on of the JWT library and of the issuer's key, at the instant `now`: a text
-- that `SignedString` made of claims with whole seconds parses to them, under RS256 and the issuer's `kid`, and is valid under the
-- issuer's key for the issuer and the audience that the claims name, until they expire.
pub record IsSigner (lib : JwtLib) (sign : HubClaims → Option Bytes) (key : PublicKey) (now : ℕ)
    : Type 0 where
  pub token_for : HubClaims → Token
  pub parses :
      (c : HubClaims) (text : Bytes) → sign c ≡ some text → lib.parse text ≡ some (token_for c)
  pub rs256 : (c : HubClaims) → (lib.is_rs256 (token_for c) && (token_for c).is_rsa) ≡ true
  pub kid : (c : HubClaims) → (token_for c).kid ≡ mock_kid
  pub claims : (c : HubClaims) → IsWhole c → (token_for c).claims ≡ c
  pub valid :
      (c : HubClaims)
      → IsWhole c
      → now < c.expires_at
      → lib.is_valid (token_for c) key c.issuer c.audience ≡ true

-- A token that the issuer made lets its bearer through until the second in which its hour ends, with the identity that it was made
-- for, where the middleware expects this issuer and audience and the cache holds the issuer's key, or
-- does not and the endpoint serves the issuer's document.
pub issued_token-admitted :
    (lib : JwtLib) (sign : HubClaims → Option Bytes) (key : PublicKey) (now issued_at : ℕ)
    (issuer : Issuer) (id text : Bytes) (wallets : List Caip10) (response : Response)
    (at_read at_check at_end : Keys)
    → IsSigner lib sign key now
    → key.e < 2 ^ 64
    → issue_token sign issuer issued_at id wallets ≡ some text
    → now < numeric_date (issued_at + token_ttl)
    → (lookup at_read mock_kid ≡ some key)
      ⊎ ((response ≡ some (entries_of (jwks_doc key)))
          × ((lookup at_read mock_kid ≡ none) × (lookup at_check mock_kid ≡ none)))
    → identity_id
        (jwt_auth lib issuer.issuer_url issuer.audience
          (bearer ++ text)
          response
          at_read
          at_check
          at_end).0
      ≡ some id
unfolding issue_token claims_for identity_id
issued_token-admitted lib sign key now issued_at issuer id text wallets response at_read at_check
      at_end s small made fresh held =
    let c = claims_for issuer issued_at id wallets in
    let t = s.token_for c in
    let whole : IsWhole c = record {
      issued = numeric_date-numeric_date issued_at;
      expires = numeric_date-numeric_date (issued_at + token_ttl);
    } in
    let key_is : (get t.kid response at_read at_check at_end).0 ≡ some key =
      (λ i. (get (s.kid c i) response at_read at_check at_end).0) ∙ elim held [
        | inl h ↦ (λ i. (get_cached key small at_end mock_kid key response at_read at_check h i).0)
        | inr (served, (r, k)) ↦
            (λ i. (get mock_kid (served i) at_read at_check at_end).0)
            ∙ (published_key_found key at_read at_check at_end [] [] none small r k).0
      ] in
    ap identity_id (
      is_let_through lib issuer.issuer_url issuer.audience response at_read at_check at_end
        (bearer ++ text) c
        (record {
          text = text;
          token = t;
          key = key;
          header_is = refl;
          parses = s.parses c text made;
          rs256 = s.rs256 c;
          key_is = key_is;
          valid = s.valid c whole fresh;
          claims_are = s.claims c whole;
        }))
