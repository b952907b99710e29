-- ===== src/Middleware/Cache.antt =====
-- examples/middleware/jwt.go and examples/hub/issuer.go: the key that the issuer publishes, as the
-- cache finds it.
use siwx_go.Base.{ℕ, ◌%◌, ◌^◌, ◌<◌, List, [], ◌∷◌, map, Bytes, none, some, ◌≡◌, refl, ◌∙◌, arith}
use siwx_go.Go.Base64.Laws.{raw_url_decode-raw_url_encode}
use siwx_go.Go.Base64.{raw_url_encode, raw_url_decode}
use siwx_go.Go.BigInt.Laws.{digits, All-digits, value-digits}
use siwx_go.Go.BigInt.{set_bytes, to_bytes}
use siwx_go.Go.Maps.{lookup, delete, insert, lookup-insert}
use siwx_go.Hub.Issuer.{PublicKey, Jwk, mock_kid, jwks_doc}
use siwx_go.Middleware.{Keys, Response, JwkEntry, add_entry, add_entries, merge, refresh, get}

-- What `json.Unmarshal` reads of a document that was marshalled.
abbrev pub entries_of : List Jwk → List JwkEntry
entries_of = map (λ k. record { kid = k.kid; n = k.n; e = k.e })

set_bytes-to_bytes : (n : ℕ) → set_bytes (to_bytes n) ≡ n
unfolding to_bytes digits
set_bytes-to_bytes n = value-digits 256 (omega arith) n

number_read : (n : ℕ) → raw_url_decode (raw_url_encode (to_bytes n)) ≡ some (to_bytes n)
unfolding to_bytes digits
number_read n = raw_url_decode-raw_url_encode (to_bytes n) (All-digits 256 (omega arith) n)

published :
    (key : PublicKey)
    → key.e < 2 ^ 64
    → add_entries [] (entries_of (jwks_doc key)) ≡ (mock_kid, key) ∷ []
unfolding add_entries add_entry jwks_doc delete
published key small =
    let word : key.e % 2 ^ 64 ≡ key.e = omega arith in
    rw
      (
        add_entry,
        number_read key.n,
        number_read key.e,
        set_bytes-to_bytes key.n,
        set_bytes-to_bytes key.e,
        word,
      )
      refl

module _ (key : PublicKey) (small : key.e < 2 ^ 64) (at_end : Keys) where
  found_at_once :
      (at_read at_check : Keys)
      → lookup at_read mock_kid ≡ none
      → lookup at_check mock_kid ≡ none
      → get mock_kid (some (entries_of (jwks_doc key))) at_read at_check at_end
        ≡ (some key, insert at_end mock_kid key)
  unfolding get refresh merge
  found_at_once at_read at_check r c =
      rw (get, r, refresh, c, published key small, merge, lookup-insert at_end mock_kid key) refl

  pub get_cached :
      (kid : Bytes) (found : PublicKey) (response : Response) (at_read at_check : Keys)
      → lookup at_read kid ≡ some found
      → get kid response at_read at_check at_end ≡ (some found, at_end)
  unfolding get
  get_cached kid found response at_read at_check h = rw (get, h) refl

-- Where the cache does not hold the issuer's key yet and the endpoint serves the issuer's document,
-- `get` finds exactly the issuer's key, and on the map that it leaves `get` finds it again, whatever the
-- endpoint does. The exponent of the key is below 2^64.
pub published_key_found :
    (key : PublicKey) (at_read at_check at_end check end : Keys) (response : Response)
    → key.e < 2 ^ 64
    → lookup at_read mock_kid ≡ none
    → lookup at_check mock_kid ≡ none
    → ((get mock_kid (some (entries_of (jwks_doc key))) at_read at_check at_end).0 ≡ some key)
      × (get mock_kid response
            (get mock_kid (some (entries_of (jwks_doc key))) at_read at_check at_end).1
            check
            end
          ≡ (some key, end))
published_key_found key at_read at_check at_end check end response small r c =
    let found = found_at_once key small at_end at_read at_check r c in
    (
      λ i. (found i).0,
      get_cached key small end mock_kid key response _ check
          ((λ i. lookup (found i).1 mock_kid) ∙ lookup-insert at_end mock_kid key),
    )
