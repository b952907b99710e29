-- ===== src/TestVectors.antt =====
-- internal/testvectors/load.go: the loader of the test vectors, with what the tests derive from them.
-- `json.Unmarshal`, package `time` and Ed25519 are parameters; a file is its bytes, where it can be
-- read.
pub mod Loads
pub mod Texts
pub mod Extract
pub mod Expected
use siwx_go.Base.{
  ℕ, List, [], ◌∷◌, ◌++◌, Bytes, codes, Bool, true, false, Option, none, some, if◌then◌else◌,
  length, ◌==◌,
}
use siwx_go.Go.Base64.{std_decode}
use siwx_go.Go.Maps.{lookup, insert}
use siwx_go.Go.Strings.{has_prefix, has_suffix, trim_prefix, trim_suffix, split}
use siwx_go.Go.Time.{TimeLib, rfc3339_nano, rfc3339, millis_z}
use siwx_go.Siws.Errors as SiwsErrors
use siwx_go.Siws.Trailer.{parse_layouts}
use siwx_go.Siws.Verify as SiwsVerify
use siwx_go.Siwx.Errors.{Sentinel}
use siwx_go.Siwx.Verifier.{Clock}

-- `Key`
pub record Key : Type 0 where
  pub id : Bytes
  pub public_key_base58 : Bytes
  pub private_seed : Bytes

-- `Vector`; `nil` is `none`.
pub record Vector : Type 0 where
  pub name : Bytes
  pub key : Bytes
  pub message : Bytes
  pub signature : Bytes
  pub expected_error : Option SiwsErrors.Sentinel

-- `Corpus`
pub record Corpus : Type 0 where
  pub reference_time : ℕ
  pub keys : List (Bytes × Key)
  pub valid : List Vector
  pub invalid : List Vector

-- `rawKey`
pub record RawKey : Type 0 where
  pub id : Bytes
  pub public_key_base58 : Bytes
  pub private_seed_b64 : Bytes

-- `rawEntry`
pub record RawEntry : Type 0 where
  pub name : Bytes
  pub key : Bytes
  pub message_b64 : Bytes
  pub signature_b64 : Bytes
  pub expected_error : Bytes

-- `rawFile`
pub record RawFile : Type 0 where
  pub description : Bytes
  pub reference_time : Bytes
  pub keys : List RawKey
  pub valid : List RawEntry
  pub invalid : List RawEntry

-- One constructor for each text that `fmt.Errorf` builds, with the names that it holds.
pub data LoadError : Type 0 where
  unreadable bad_json bad_reference_time : LoadError
  bad_seed bad_message bad_signature unknown_expected_error : Bytes → LoadError

pub data Loaded (A : Type 0) : Type 0 where
  loaded : A → Loaded A
  failed : LoadError → Loaded A

infixl 5 ◌>>=◌
abbrev pub ◌>>=◌ : {A B : Type 0} → Loaded A → (A → Loaded B) → Loaded B
loaded a >>= k = k a
failed e >>= k = failed e

-- A result of `DecodeString`, with the error that wraps its own.
abbrev pub or_fail : {A : Type 0} → LoadError → Option A → Loaded A
or_fail e none = failed e
or_fail e (some a) = loaded a

-- `sentinelMap`
abbrev pub sentinel_map : List (Bytes × SiwsErrors.Sentinel)
sentinel_map =
    (codes "ErrMalformed", SiwsErrors.Sentinel.malformed)
    ∷ (codes "ErrBadSignature", SiwsErrors.Sentinel.bad_signature)
    ∷ (codes "ErrExpired", SiwsErrors.Sentinel.expired)
    ∷ (codes "ErrNotYetValid", SiwsErrors.Sentinel.not_yet_valid)
    ∷ (codes "ErrDomainMismatch", SiwsErrors.Sentinel.domain_mismatch)
    ∷ (codes "ErrNonceMismatch", SiwsErrors.Sentinel.nonce_mismatch)
    ∷ []

-- `SiwxSentinelFor`, on what `ExpectedError` can hold. `nil` is no case of the switch, and comes back.
unfoldable pub siwx_sentinel_for : Option SiwsErrors.Sentinel → Option Sentinel
siwx_sentinel_for (some SiwsErrors.Sentinel.malformed) = some Sentinel.malformed
siwx_sentinel_for (some SiwsErrors.Sentinel.bad_signature) = some Sentinel.bad_signature
siwx_sentinel_for (some SiwsErrors.Sentinel.expired) = some Sentinel.expired
siwx_sentinel_for (some SiwsErrors.Sentinel.not_yet_valid) = some Sentinel.not_yet_valid
siwx_sentinel_for (some SiwsErrors.Sentinel.domain_mismatch) = some Sentinel.domain_mismatch
siwx_sentinel_for (some SiwsErrors.Sentinel.nonce_mismatch) = some Sentinel.nonce_mismatch
siwx_sentinel_for none = none

-- The loop over `f.Keys`.
unfoldable pub add_keys : List (Bytes × Key) → List RawKey → Loaded (List (Bytes × Key))
unfolding std_decode
add_keys keys [] = loaded keys
add_keys keys (k ∷ ks) = do
  seed ← or_fail (bad_seed k.id) (std_decode k.private_seed_b64)
  add_keys
      (insert keys k.id
        (record { id = k.id; public_key_base58 = k.public_key_base58; private_seed = seed }))
      ks

-- The sentinel of an entry: a valid one has none, and its text is not looked at.
unfoldable pub expected : RawEntry → Bool → Loaded (Option SiwsErrors.Sentinel)
unfolding lookup
expected e true = loaded none
expected e false = elim (lookup sentinel_map e.expected_error) [
  | none ↦ failed (unknown_expected_error e.expected_error)
  | some s ↦ loaded (some s)
]

-- `toVector`
unfoldable pub to_vector : RawEntry → Bool → Loaded Vector
unfolding std_decode expected
to_vector e valid = do
  msg ← or_fail (bad_message e.name) (std_decode e.message_b64)
  sig ← or_fail (bad_signature e.name) (std_decode e.signature_b64)
  s ← expected e valid
  loaded (record { name = e.name; key = e.key; message = msg; signature = sig; expected_error = s })

-- The loops over `f.Valid` and `f.Invalid`.
unfoldable pub add_vectors : Bool → List Vector → List RawEntry → Loaded (List Vector)
unfolding to_vector
add_vectors valid vs [] = loaded vs
add_vectors valid vs (e ∷ es) = do v ← to_vector e valid; add_vectors valid (vs ++ v ∷ []) es

-- `parseTime`
unfoldable pub parse_time : TimeLib → Bytes → Option ℕ
unfolding parse_layouts
parse_time time = parse_layouts time (rfc3339_nano ∷ rfc3339 ∷ millis_z ∷ [])

module _ (unmarshal : Bytes → Option RawFile) (time : TimeLib) where
  -- `parse`
  unfoldable pub parse : Bytes → Loaded Corpus
  unfolding parse_time add_keys add_vectors
  parse raw = do
    f ← or_fail bad_json (unmarshal raw)
    ref_time ← or_fail bad_reference_time (parse_time time f.reference_time)
    keys ← add_keys [] f.keys
    valid ← add_vectors true [] f.valid
    invalid ← add_vectors false [] f.invalid
    loaded (record { reference_time = ref_time; keys = keys; valid = valid; invalid = invalid })

  -- `Load`, with the bytes of the file.
  unfoldable pub load : Option Bytes → Loaded Corpus
  unfolding parse
  load file = or_fail unreadable file >>= parse

  -- `MustLoad`; `none` is the panic.
  unfoldable pub must_load : Option Bytes → Option Corpus
  unfolding load
  must_load file = elim (load file) [ failed _ ↦ none | loaded c ↦ some c ]

-- `FrozenClock`
abbrev pub frozen_clock : Corpus → Clock
frozen_clock c = λ _. c.reference_time

-- `Signer`; `none` is the panic.
unfoldable pub signer : Corpus → Bytes → Option Key
unfolding lookup
signer c key_id = lookup c.keys key_id

abbrev pub seed_size : ℕ
seed_size = 32

-- `Sign`, where `ed25519_sign` signs with the key of a seed; `NewKeyFromSeed` panics, which is `none`,
-- on a seed of another size.
unfoldable pub sign : (Bytes → Bytes → Bytes) → Key → Bytes → Option Bytes
sign ed25519_sign k msg =
    if length k.private_seed == seed_size then some (ed25519_sign k.private_seed msg) else none

-- `SiwsVerifyOpts`
unfoldable pub siws_verify_opts : Option ℕ → Bytes → Bytes → SiwsVerify.VerifyOpts
siws_verify_opts now domain nonce = record {
  expected_domain = domain;
  expected_nonce = nonce;
  now = now;
}

abbrev pub suffix : Bytes
suffix = codes " wants you to sign in with your Solana account:"

abbrev pub nonce_label : Bytes
nonce_label = codes "Nonce: "

-- The body of the loop of `ExtractDomainNonce`.
unfoldable pub extract_line : Bytes × Bytes → Bytes → Bytes × Bytes
unfolding has_suffix trim_suffix has_prefix trim_prefix
extract_line (domain, nonce) line = (
  if has_suffix line suffix then trim_suffix line suffix else domain,
  if has_prefix line nonce_label then trim_prefix line nonce_label else nonce,
)

unfoldable pub extract_lines : Bytes × Bytes → List Bytes → Bytes × Bytes
unfolding extract_line
extract_lines found [] = found
extract_lines found (line ∷ lines) = extract_lines (extract_line found line) lines

-- `ExtractDomainNonce`
unfoldable pub extract_domain_nonce : Bytes → Bytes × Bytes
unfolding extract_lines split
extract_domain_nonce msg = extract_lines ([], []) (split msg b'\n')
