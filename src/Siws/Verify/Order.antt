-- ===== src/Siws/Verify/Order.antt =====
-- siws/verify.go: the order of the checks, the window, and the deprecated `Verify`.
use siwx_go.Base.{
  ℕ, [], Bytes, Option, none, some, equal_iff, Bool, false, if◌then◌else◌, ltb, leb, ◌≡◌, ◌≢◌,
  arith, refl, inl, inr,
}
use siwx_go.Go.Time.{TimeLib}
use siwx_go.Siws.Errors.{
  Sentinel, sentinel, Reason, ok, err, ◌>>=◌, Result-cases, too_early, too_late,
}
use siwx_go.Siws.Fields.Laws.{equal-false}
use siwx_go.Siws.Message.{Message, to_string}
use siwx_go.Siws.Parse.{parse_message}
use siwx_go.Siws.Verify.Accepts.{Accepts-of_verify_raw, ok-check_sig}
use siwx_go.Siws.Verify.{
  VerifyOpts, is_early, is_late, check_sig, check_message, verify_raw, verify,
}

check_sig-err :
    (ed : Bytes → Bytes → Bytes → Bool) (address signed sig : Bytes) (r : Reason)
    → check_sig ed address signed sig ≡ err r
    → sentinel r ≡ Sentinel.bad_signature
unfolding check_sig sentinel
check_sig-err ed address signed sig r h = ground arith

-- An error that is not about the signature does not depend on the signature, nor on the scheme.
pub signature_last :
    (ed ed' : Bytes → Bytes → Bytes → Bool) (lib : TimeLib) (msg sig sig' : Bytes)
    (opts : VerifyOpts) (wall : ℕ) (r : Reason)
    → verify_raw ed lib msg sig opts wall ≡ err r
    → sentinel r ≢ Sentinel.bad_signature
    → verify_raw ed' lib msg sig' opts wall ≡ err r
unfolding verify_raw check_message
signature_last ed ed' lib msg sig sig' opts wall r h ne =
    elim (Result-cases (parse_message lib msg)) [
      | inl (m, e) ↦ elim (Result-cases (check_sig ed m.address msg sig)) [
        | inl (_, c) ↦ ground arith
        | inr (inl (r', c)) ↦ ground (arith, check_sig-err ed m.address msg sig r' c)
        | inr (inr c) ↦ ground arith
      ]
      | inr (inl (r', e)) ↦ ground arith
      | inr (inr e) ↦ ground arith
    ]

-- The window of a message, open at its end.
abbrev pub before_window : Option ℕ → ℕ → Bool
before_window none t = false
before_window (some start) t = ltb t start

abbrev pub past_window : Option ℕ → ℕ → Bool
past_window none t = false
past_window (some over) t = leb over t

is_early-before : (o : Option ℕ) (t : ℕ) → is_early o t ≡ before_window o t
unfolding is_early
is_early-before none t = refl
is_early-before (some s) t = refl

is_late-past : (o : Option ℕ) (t : ℕ) → is_late o t ≡ past_window o t
unfolding is_late
is_late-past none t = refl
is_late-past (some s) t = ground arith

-- A message that is accepted once is accepted at exactly the instants of its window: before it the
-- answer is `ErrNotYetValid`, and from its expiration on it is `ErrExpired`.
pub window :
    (ed : Bytes → Bytes → Bytes → Bool) (lib : TimeLib) (msg sig : Bytes) (opts : VerifyOpts)
    (wall t : ℕ) (m : Message)
    → verify_raw ed lib msg sig opts wall ≡ ok m
    → verify_raw ed lib msg sig (record opts { now = some t }) wall ≡ (
        if before_window m.not_before t
        then err too_early
        else if past_window m.expiration_time t
        then err too_late
        else ok m)
unfolding verify_raw check_message
window ed lib msg sig opts wall t m h =
    let a = Accepts-of_verify_raw ed lib msg sig opts wall m h in
    rw
      (
        equal-false opts.expected_domain [] a.domain_given,
        equal-false opts.expected_nonce [] a.nonce_given,
        a.parses,
        (equal_iff m.domain opts.expected_domain).1 a.domain_is,
        is_early-before m.not_before t,
        is_late-past m.expiration_time t,
        (equal_iff m.nonce opts.expected_nonce).1 a.nonce_is,
        ok-check_sig ed m.address msg sig a.signed,
      )
      (ground arith)

-- The deprecated `Verify` on a message agrees with `VerifyRaw` on the text that `String` writes for
-- it, where that text is parsed back to the message.
pub verify-verify_raw :
    (ed : Bytes → Bytes → Bytes → Bool) (lib : TimeLib) (m : Message) (sig : Bytes)
    (opts : VerifyOpts) (wall : ℕ)
    → parse_message lib (to_string lib m) ≡ ok m
    → verify_raw ed lib (to_string lib m) sig opts wall
      ≡ (verify ed lib m sig opts wall >>= λ _. ok m)
unfolding verify_raw check_message verify
verify-verify_raw ed lib m sig opts wall h = rw h (ground arith)
