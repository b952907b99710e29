-- ===== src/Tests/Middleware.antt =====
-- The middleware, with a JWT library whose tokens are the subjects of their claims.
use siwx_go.Base.{
  List, [], ◌∷◌, Bytes, codes, Bool, true, false, Option, none, some, ltb, lt→ltb, equal, equal_iff,
  equal_refl, Bool-cases, sym, ap, ◌&&◌, ◌==◌, if◌then◌else◌, ◌≡◌, refl, arith, inl, inr,
}
use siwx_go.Hub.Issuer.{Issuer, HubClaims, PublicKey, mock_kid, claims_for}
use siwx_go.Middleware.Admits.{IsSigner}
use siwx_go.Middleware.{Token, JwtLib}

abbrev issuer : Issuer
issuer = record { issuer_url = codes "https://i"; audience = codes "a" }

abbrev pub key : PublicKey
key = record { n = 3233; e = 65537 }

abbrev pub session_id : Bytes
session_id = codes "id_02020202020202020202020202020202"

abbrev session_wallet : Bytes
session_wallet = codes "eip155:1:0x05"

abbrev claims : HubClaims
claims = record {
  subject = session_id;
  issuer = codes "https://i";
  audience = codes "a";
  issued_at = 0;
  expires_at = 3600000000000;
  wallets = session_wallet ∷ [];
}

unfoldable are_ours : List Bytes → Bool
unfolding equal
are_ours [] = false
are_ours (w ∷ []) = equal w session_wallet
are_ours (w ∷ v ∷ ws) = false

-- These very claims.
unfoldable is_ours : HubClaims → Bool
unfolding equal are_ours
is_ours c =
    equal c.subject session_id
    && equal c.issuer (codes "https://i")
    && equal c.audience (codes "a")
    && c.issued_at == 0
    && c.expires_at == 3600000000000
    && are_ours c.wallets

ours_are : (ws : List Bytes) → are_ours ws ≡ true → ws ≡ session_wallet ∷ []
unfolding are_ours
ours_are [] h = cc
ours_are (w ∷ []) h = ap (λ t. t ∷ []) ((equal_iff w session_wallet).0 h)
ours_are (w ∷ v ∷ ws) h = cc

is_ours→same : (c : HubClaims) → is_ours c ≡ true → c ≡ claims
unfolding is_ours
is_ours→same c h =
    let subject : c.subject ≡ session_id = ground (arith, equal_iff c.subject session_id) in
    let iss : c.issuer ≡ codes "https://i" =
      ground (arith, equal_iff c.issuer (codes "https://i")) in
    let aud : c.audience ≡ codes "a" = ground (arith, equal_iff c.audience (codes "a")) in
    let at : c.issued_at ≡ 0 = ground arith in
    let until : c.expires_at ≡ 3600000000000 = ground arith in
    let held : c.wallets ≡ session_wallet ∷ [] = ours_are c.wallets (ground arith) in
    λ i. record {
      subject = subject i;
      issuer = iss i;
      audience = aud i;
      issued_at = at i;
      expires_at = until i;
      wallets = held i;
    }

unfoldable pub sign : HubClaims → Option Bytes
unfolding is_ours are_ours equal
sign c = if is_ours c then some (codes "tok") else none

abbrev token_for : HubClaims → Token
token_for c = record { is_rsa = true; kid = mock_kid; claims = c }

abbrev parse : Bytes → Option Token
unfolding claims_for
parse b = if equal b (codes "tok") then some (token_for claims) else none

-- The clock stands at 6.
abbrev is_valid : Token → PublicKey → Bytes → Bytes → Bool
unfolding equal
is_valid t k iss aud =
    k.n == 3233
    && equal t.claims.issuer iss
    && equal t.claims.audience aud
    && ltb 6 t.claims.expires_at

unfoldable pub lib : JwtLib
unfolding claims_for equal is_ours
lib = record { parse = parse; is_rs256 = λ t. true; is_valid = is_valid }

parses_here :
    (c : HubClaims) (text : Bytes) → sign c ≡ some text → lib.parse text ≡ some (token_for c)
unfolding lib claims_for sign
parses_here c text h = elim (Bool-cases (is_ours c)) [
  | inr e ↦ absurd (none_not (rw e at h))
  | inl e ↦
      let same_text : codes "tok" ≡ text = some_inj (rw e at h) in
      let is_tok : equal text (codes "tok") ≡ true =
        (equal_iff text (codes "tok")).1 (sym same_text) in
      rw is_tok (ap (λ x. some (token_for x)) (sym (is_ours→same c e)))
]
  where
    none_not : {b : Bytes} → ¬ (none ≡ some b)
    none_not q = cc

    some_inj : {a b : Bytes} → some a ≡ some b → a ≡ b
    some_inj q = cc

pub signer : IsSigner lib sign key 6
unfolding lib
signer = record {
  token_for = token_for;
  parses = parses_here;
  rs256 = λ c. refl;
  kid = λ c. refl;
  claims = λ c w. refl;
  valid = λ c w h. rw (equal_refl c.issuer, equal_refl c.audience, lt→ltb 6 c.expires_at h) refl;
}
