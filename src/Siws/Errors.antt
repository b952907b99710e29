-- ===== src/Siws/Errors.antt =====
-- siws/errors.go and the errors that the package's functions build with `fmt.Errorf`.
use siwx_go.Base.{◌≡◌, refl, ◌⊎◌, inl, inr}

-- The sentinels that callers test for with `errors.Is`.
pub data Sentinel : Type 0 where
  malformed bad_signature expired not_yet_valid domain_mismatch nonce_mismatch : Sentinel

-- The labelled fields of a message, in the order of the grammar.
pub data Field : Type 0 where
  uri version chain_id nonce issued_at expiration_time not_before request_id resources : Field

-- One constructor for each error text of base58.go, parse.go and verify.go. No text holds input.
pub data Reason : Type 0 where
  base58_too_long base58_bad_character : Reason
  too_large crlf too_few_lines bad_header missing_domain missing_address : Reason
  bad_address_encoding bad_address_size no_blank_after_address no_blank_after_statement : Reason
  empty_uri bad_version bad_nonce unexpected_line : Reason
  missing_field expected_field bad_timestamp out_of_order : Field → Reason
  missing_expectation wrong_domain too_early too_late wrong_nonce : Reason
  bad_signature_size bad_public_key wrong_signature : Reason

-- The one sentinel that the error wraps by `%w`.
unfoldable pub sentinel : Reason → Sentinel
sentinel wrong_domain = Sentinel.domain_mismatch
sentinel too_early = Sentinel.not_yet_valid
sentinel too_late = Sentinel.expired
sentinel wrong_nonce = Sentinel.nonce_mismatch
sentinel bad_signature_size = Sentinel.bad_signature
sentinel bad_public_key = Sentinel.bad_signature
sentinel wrong_signature = Sentinel.bad_signature
sentinel _ = Sentinel.malformed

-- A value, an error, or a run-time panic (an index out of range).
pub data Result {ℓ} (A : Type ℓ) : Type ℓ where
  ok : A → Result A
  err : Reason → Result A
  panicked : Result A

infixl 5 ◌>>=◌ ◌>>◌
abbrev pub ◌>>=◌ {ℓ κ} : {A : Type ℓ} {B : Type κ} → Result A → (A → Result B) → Result B
panicked >>= k = panicked
err r >>= k = err r
ok a >>= k = k a

abbrev pub ◌>>◌ {ℓ κ} : {A : Type ℓ} {B : Type κ} → Result A → Result B → Result B
r >> next = r >>= λ _. next

pub bind-eq-ok {ℓ κ} :
    {A : Type ℓ} {B : Type κ} (r : Result A) (k : A → Result B) {v : B}
    → (r >>= k) ≡ ok v
    → (a : A) × (r ≡ ok a) × (k a ≡ ok v)
bind-eq-ok panicked k e = cc
bind-eq-ok (err r) k e = cc
bind-eq-ok (ok a) k e = (a, refl, e)

pub Result-cases {ℓ} :
    {A : Type ℓ} (r : Result A)
    → ((a : A) × (r ≡ ok a)) ⊎ (((e : Reason) × (r ≡ err e)) ⊎ (r ≡ panicked))
Result-cases (ok a) = inl (a, refl)
Result-cases (err e) = inr (inl (e, refl))
Result-cases panicked = inr (inr refl)
