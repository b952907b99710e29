-- ===== src/Siws/Verify/Returns.antt =====
-- siws/verify.go: panics of the verifier.
use siwx_go.Base.{ℕ, Bytes, Bool, ◌≢◌, arith, inl, inr}
use siwx_go.Go.Time.{TimeLib}
use siwx_go.Siws.Base58.{decode_base58}
use siwx_go.Siws.Errors.{panicked, Result-cases}
use siwx_go.Siws.Grammar.Returns.{Calm, Calm-decode, parse_message-Calm}
use siwx_go.Siws.Message.{Message}
use siwx_go.Siws.Parse.{parse_message}
use siwx_go.Siws.Verify.{VerifyOpts, check_sig, check_message, verify_raw}

module _ (ed25519_verify : Bytes → Bytes → Bytes → Bool) where
  Calm-sig : (address msg sig : Bytes) → Calm (check_sig ed25519_verify address msg sig)
  unfolding check_sig
  Calm-sig address msg sig h = elim (Result-cases (decode_base58 address)) [
    | inl (k, e) ↦ ground arith
    | inr (inl (r, e)) ↦ ground arith
    | inr (inr e) ↦ Calm-decode address e
  ]

  Calm-message :
      (m : Message) (msg sig : Bytes) (opts : VerifyOpts) (wall : ℕ)
      → Calm (check_message ed25519_verify m msg sig opts wall)
  unfolding check_message
  Calm-message m msg sig opts wall h =
      elim (Result-cases (check_sig ed25519_verify m.address msg sig)) [
        | inl (k, e) ↦ ground arith
        | inr (inl (r, e)) ↦ ground arith
        | inr (inr e) ↦ Calm-sig m.address msg sig e
      ]

  -- `VerifyRaw` returns a message or an error for every input, and never panics.
  pub verify_raw-Calm :
      (lib : TimeLib) (msg sig : Bytes) (opts : VerifyOpts) (wall : ℕ)
      → verify_raw ed25519_verify lib msg sig opts wall ≢ panicked
  unfolding verify_raw
  verify_raw-Calm lib msg sig opts wall h = elim (Result-cases (parse_message lib msg)) [
    | inl (m, e) ↦ elim (Result-cases (check_message ed25519_verify m msg sig opts wall)) [
      | inl (k, f) ↦ ground arith
      | inr (inl (r, f)) ↦ ground arith
      | inr (inr f) ↦ Calm-message m msg sig opts wall f
    ]
    | inr (inl (r, e)) ↦ ground arith
    | inr (inr e) ↦ parse_message-Calm lib msg e
  ]
