-- ===== src/Siws/Verify/Accepts.antt =====
-- siws/verify.go: when a message is accepted.
use siwx_go.Base.{
  ap, ◌∙◌, ℕ, ◌≤◌, ◌<◌, [], Bytes, Option, none, some, equal_iff, Bool, true, false, length, ◌≡◌,
  ◌≢◌, ◌↔◌, arith, refl, inl, inr,
}
use siwx_go.Go.Time.{TimeLib}
use siwx_go.Siws.Base58.{decode_base58}
use siwx_go.Siws.Errors.{ok, Result-cases}
use siwx_go.Siws.Fields.Laws.{equal-false}
use siwx_go.Siws.Message.{Message}
use siwx_go.Siws.Parse.{parse_message}
use siwx_go.Siws.Verify.{
  VerifyOpts, clock_of, signature_size, public_key_size, is_early, is_late, check_sig,
  check_message, verify_raw,
}

-- The instant lies in the window of the message.
abbrev pub NotEarly : Option ℕ → ℕ → Type 0
NotEarly none now = Unit
NotEarly (some t) now = t ≤ now

abbrev pub NotLate : Option ℕ → ℕ → Type 0
NotLate none now = Unit
NotLate (some t) now = now < t

module _ (ed25519_verify : Bytes → Bytes → Bytes → Bool) where
  -- A valid Ed25519 signature of `signed` under the key that the address spells.
  pub record IsSigned (address signed sig : Bytes) : Type 0 where
    pub key : Bytes
    pub spells : decode_base58 address ≡ ok key
    pub key_size : length key ≡ public_key_size
    pub sig_size : length sig ≡ signature_size
    pub valid : ed25519_verify key signed sig ≡ true

  check_sig-ok :
      (address signed sig : Bytes)
      → check_sig ed25519_verify address signed sig ≡ ok tt
      → IsSigned address signed sig
  unfolding check_sig
  check_sig-ok address signed sig h = elim (Result-cases (decode_base58 address)) [
    | inl (k, e) ↦ record {
      key = k;
      spells = e;
      key_size = ground arith;
      sig_size = ground arith;
      valid = ground arith;
    }
    | inr (inl (r, e)) ↦ absurd (ground arith)
    | inr (inr e) ↦ absurd (ground arith)
  ]

  pub ok-check_sig :
      (address signed sig : Bytes)
      → IsSigned address signed sig
      → check_sig ed25519_verify address signed sig ≡ ok tt
  unfolding check_sig
  ok-check_sig address signed sig s = ground (arith, s.spells, s.valid)

  -- Everything that the relying party asks of a message.
  pub record Accepts (lib : TimeLib) (msg sig : Bytes) (opts : VerifyOpts) (wall : ℕ) (m : Message)
      : Type 0 where
    pub domain_given : opts.expected_domain ≢ []
    pub nonce_given : opts.expected_nonce ≢ []
    pub parses : parse_message lib msg ≡ ok m
    pub domain_is : m.domain ≡ opts.expected_domain
    pub started : NotEarly m.not_before (clock_of opts.now wall)
    pub not_over : NotLate m.expiration_time (clock_of opts.now wall)
    pub nonce_is : m.nonce ≡ opts.expected_nonce
    pub signed : IsSigned m.address msg sig

  not_early : (o : Option ℕ) (now : ℕ) → is_early o now ≡ false → NotEarly o now
  unfolding is_early
  not_early none now h = tt
  not_early (some t) now h = ground arith

  early : (o : Option ℕ) (now : ℕ) → NotEarly o now → is_early o now ≡ false
  unfolding is_early
  early none now h = refl
  early (some t) now h = ground arith

  not_late : (o : Option ℕ) (now : ℕ) → is_late o now ≡ false → NotLate o now
  unfolding is_late
  not_late none now h = tt
  not_late (some t) now h = ground arith

  late : (o : Option ℕ) (now : ℕ) → NotLate o now → is_late o now ≡ false
  unfolding is_late
  late none now h = refl
  late (some t) now h = ground arith

  module _ (m : Message) (signed sig : Bytes) (opts : VerifyOpts) (wall : ℕ) where
    -- The part of `Accepts` behind the parser.
    record Passes : Type 0 where
      given : opts.expected_domain ≢ []
      domain_is : m.domain ≡ opts.expected_domain
      started : NotEarly m.not_before (clock_of opts.now wall)
      not_over : NotLate m.expiration_time (clock_of opts.now wall)
      nonce_is : m.nonce ≡ opts.expected_nonce
      signature : IsSigned m.address signed sig

    Passes_of_check : check_message ed25519_verify m signed sig opts wall ≡ ok tt → Passes
    unfolding check_message
    Passes_of_check h = record {
      given = ground (arith, equal_iff opts.expected_domain []);
      domain_is = ground (arith, equal_iff m.domain opts.expected_domain);
      started = not_early m.not_before (clock_of opts.now wall) (ground arith);
      not_over = not_late m.expiration_time (clock_of opts.now wall) (ground arith);
      nonce_is = ground (arith, equal_iff m.nonce opts.expected_nonce);
      signature = check_sig-ok m.address signed sig (ground arith);
    }

    check_of_Passes : Passes → check_message ed25519_verify m signed sig opts wall ≡ ok tt
    unfolding check_message
    check_of_Passes p =
        rw
          (
            equal-false opts.expected_domain [] p.given,
            (equal_iff m.domain opts.expected_domain).1 p.domain_is,
            early m.not_before (clock_of opts.now wall) p.started,
            late m.expiration_time (clock_of opts.now wall) p.not_over,
            (equal_iff m.nonce opts.expected_nonce).1 p.nonce_is,
          )
          (ok-check_sig m.address signed sig p.signature)

  module _ (lib : TimeLib) (msg sig : Bytes) (opts : VerifyOpts) (wall : ℕ) (m : Message) where
    verify_raw_parts :
        verify_raw ed25519_verify lib msg sig opts wall ≡ ok m
        → (parse_message lib msg ≡ ok m)
          × (check_message ed25519_verify m msg sig opts wall ≡ ok tt)
    unfolding verify_raw
    verify_raw_parts h = elim (Result-cases (parse_message lib msg)) [
      | inl (m', e) ↦ elim (Result-cases (check_message ed25519_verify m' msg sig opts wall)) [
        | inl (_, c) ↦ let same : m' ≡ m = ground arith in (e ∙ ap ok same, rw same at c)
        | inr (inl (r, c)) ↦ absurd (ground arith)
        | inr (inr c) ↦ absurd (ground arith)
      ]
      | inr (inl (r, e)) ↦ absurd (ground arith)
      | inr (inr e) ↦ absurd (ground arith)
    ]

    pub Accepts-of_verify_raw :
        verify_raw ed25519_verify lib msg sig opts wall ≡ ok m → Accepts lib msg sig opts wall m
    unfolding verify_raw
    Accepts-of_verify_raw h =
        let (parsed, checked) = verify_raw_parts h in
        let p = Passes_of_check m msg sig opts wall checked in
        record {
          domain_given = p.given;
          nonce_given = ground (arith, equal_iff opts.expected_nonce []);
          parses = parsed;
          domain_is = p.domain_is;
          started = p.started;
          not_over = p.not_over;
          nonce_is = p.nonce_is;
          signed = p.signature;
        }

    pub verify_raw_of_Accepts :
        Accepts lib msg sig opts wall m → verify_raw ed25519_verify lib msg sig opts wall ≡ ok m
    unfolding verify_raw
    verify_raw_of_Accepts a = rw (
      equal-false opts.expected_domain [] a.domain_given,
      equal-false opts.expected_nonce [] a.nonce_given,
      a.parses,
      check_of_Passes m msg sig opts wall (record {
        given = a.domain_given;
        domain_is = a.domain_is;
        started = a.started;
        not_over = a.not_over;
        nonce_is = a.nonce_is;
        signature = a.signed;
      }),
    )

    -- `VerifyRaw` returns a message exactly if the relying party's domain and nonce are given, the
    -- bytes parse to that message, its domain and nonce are those expected, the clock stands in its
    -- window, and the signature over these very bytes is valid under the key that its address spells.
    pub verify_raw_iff :
        (verify_raw ed25519_verify lib msg sig opts wall ≡ ok m) ↔ Accepts lib msg sig opts wall m
    verify_raw_iff = (Accepts-of_verify_raw, verify_raw_of_Accepts)
