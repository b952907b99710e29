-- ===== src/Siws/Verify.antt =====
-- siws/verify.go. `ed25519.Verify` is a parameter of the model: key, message, signature. It is
-- documented to panic where the key is not of `PublicKeySize` bytes; `call_ed25519` writes that out.
pub mod Accepts
pub mod Order
pub mod Returns
use siwx_go.Base.{
  ℕ, [], List, Bytes, Option, none, some, equal, not, Bool, ◌||◌, ◌==◌, length, if◌then◌else◌, ltb,
}
use siwx_go.Go.Time.{TimeLib, before}
use siwx_go.Siws.Base58.{decode_base58}
use siwx_go.Siws.Errors.{
  Result, ok, err, panicked, ◌>>=◌, ◌>>◌, missing_expectation, wrong_domain, too_early, too_late,
  wrong_nonce, bad_signature_size, bad_public_key, wrong_signature,
}
use siwx_go.Siws.Fields.{guard}
use siwx_go.Siws.Message.{Message, to_string}
use siwx_go.Siws.Parse.{parse_message}

-- `type VerifyOpts`. One verification calls `Now` once at most: `now` is what that call returns.
pub record VerifyOpts : Type 0 where
  pub expected_domain : Bytes
  pub expected_nonce : Bytes
  pub now : Option ℕ

-- `now()`, where `time.Now` returns `wall`.
abbrev pub clock_of : Option ℕ → ℕ → ℕ
clock_of (some t) wall = t
clock_of none wall = wall

abbrev pub signature_size : ℕ
signature_size = 64

abbrev pub public_key_size : ℕ
public_key_size = 32

pub check_domain : Message → Bytes → Result (Unit {0})
unfolding guard
check_domain m expected =
    guard (not (equal expected [] || not (equal m.domain expected))) wrong_domain

-- `m.NotBefore != nil && now.Before(*m.NotBefore)`
unfoldable pub is_early : Option ℕ → ℕ → Bool
is_early none now = Bool.false
is_early (some t) now = before now t

-- `m.ExpirationTime != nil && !now.Before(*m.ExpirationTime)`
unfoldable pub is_late : Option ℕ → ℕ → Bool
is_late none now = Bool.false
is_late (some t) now = not (before now t)

pub check_not_before : Message → ℕ → Result (Unit {0})
unfolding guard is_early
check_not_before m now = guard (not (is_early m.not_before now)) too_early

pub check_expiry : Message → ℕ → Result (Unit {0})
unfolding guard is_late
check_expiry m now = guard (not (is_late m.expiration_time now)) too_late

-- `ConstantTimeCompare` is 1 exactly if its arguments are equal.
pub check_nonce : Message → Bytes → Result (Unit {0})
unfolding guard
check_nonce m expected = guard (equal m.nonce expected) wrong_nonce

module _ (ed25519_verify : Bytes → Bytes → Bytes → Bool) where
  -- The call of `ed25519.Verify`.
  unfoldable pub call_ed25519 : Bytes → Bytes → Bytes → Result Bool
  call_ed25519 key msg sig =
      if length key == public_key_size then ok (ed25519_verify key msg sig) else panicked

  unfoldable pub check_sig : Bytes → Bytes → Bytes → Result (Unit {0})
  unfolding guard call_ed25519
  check_sig address msg sig = do
    guard (length sig == signature_size) bad_signature_size
    key ← elim (decode_base58 address) [
      | ok b ↦ if length b == public_key_size then ok b else err bad_public_key
      | err _ ↦ err bad_public_key
      | panicked ↦ panicked
    ]
    valid ← call_ed25519 key msg sig
    guard valid wrong_signature

  -- The checks of `VerifyRaw` behind the parser, over the bytes that were signed.
  unfoldable pub check_message : Message → Bytes → Bytes → VerifyOpts → ℕ → Result (Unit {0})
  unfolding check_domain check_not_before check_expiry check_nonce
  check_message m signed sig opts wall = do
    check_domain m opts.expected_domain
    let now = clock_of opts.now wall
    check_not_before m now
    check_expiry m now
    check_nonce m opts.expected_nonce
    check_sig m.address signed sig

  -- `opts.ExpectedDomain == "" || opts.ExpectedNonce == ""`
  check_expectations : VerifyOpts → Result (Unit {0})
  unfolding guard
  check_expectations opts =
      guard (not (equal opts.expected_domain [] || equal opts.expected_nonce []))
        missing_expectation

  module _ (lib : TimeLib) where
    -- `VerifyRaw`; the last argument is the system's clock.
    unfoldable pub verify_raw : Bytes → Bytes → VerifyOpts → ℕ → Result Message
    unfolding check_expectations
    verify_raw msg sig opts wall = do
      check_expectations opts
      m ← parse_message lib msg
      check_message m msg sig opts wall
      ok m

    -- `func (m *Message) Verify`, which spells the checks a second time.
    unfoldable pub verify : Message → Bytes → VerifyOpts → ℕ → Result (Unit {0})
    unfolding check_expectations check_domain check_not_before check_expiry check_nonce
    verify m sig opts wall = do
      check_expectations opts
      check_domain m opts.expected_domain
      let now = clock_of opts.now wall
      check_not_before m now
      check_expiry m now
      check_nonce m opts.expected_nonce
      check_sig m.address (to_string lib m) sig
