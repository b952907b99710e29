-- ===== src/Go/Base64/Laws.antt =====
-- Base-64 in the URL alphabet, written and read back.
use siwx_go.Base.{
  ℕ, ◌+◌, ◌*◌, ◌/◌, ◌%◌, ◌<◌, [], ◌∷◌, All, Bytes, false, ◌||◌, ◌==◌, some, ◌≡◌, refl, ap, ◌∙◌,
  arith,
}
use siwx_go.Go.Base64.{
  digit, without_newlines, four, three, two, decode_raw, raw_url_decode, url_letter, raw_url_encode,
}

-- A letter is read as its digit, and is no line end.
digit-url_letter : (n : ℕ) → n < 64 → digit b'-' b'_' (url_letter n) ≡ some n
unfolding digit url_letter
digit-url_letter n h = ground arith

letter_stays : (n : ℕ) → n < 64 → (url_letter n == b'\n' || url_letter n == b'\r') ≡ false
unfolding url_letter
letter_stays n h = ground arith

-- The bits of three bytes, in four groups of six, and put together again.
abbrev AreBytes : Bytes → Type 0
AreBytes = All (λ c. c < 256)

without_newlines-raw_url_encode :
    (b : Bytes) → AreBytes b → without_newlines (raw_url_encode b) ≡ raw_url_encode b
unfolding raw_url_encode without_newlines
without_newlines-raw_url_encode [] h = refl
without_newlines-raw_url_encode (a ∷ []) (ha, _) =
    rw (letter_stays (a / 4) (omega arith), letter_stays (a % 4 * 16) (omega arith)) refl
without_newlines-raw_url_encode (a ∷ b ∷ []) (ha, (hb, _)) =
    rw
      (
        letter_stays (a / 4) (omega arith),
        letter_stays (a % 4 * 16 + b / 16) (omega arith),
        letter_stays (b % 16 * 4) (omega arith),
      )
      refl
without_newlines-raw_url_encode (a ∷ b ∷ c ∷ s) (ha, (hb, (hc, hs))) =
    rw
      (
        letter_stays (a / 4) (omega arith),
        letter_stays (a % 4 * 16 + b / 16) (omega arith),
        letter_stays (b % 16 * 4 + c / 64) (omega arith),
        letter_stays (c % 64) (omega arith),
        without_newlines-raw_url_encode s hs,
      )
      refl

two_digits : (a : ℕ) → a < 256 → two (some (a / 4)) (some (a % 4 * 16)) ≡ some (a ∷ [])
unfolding two
two_digits a h = let e : a / 4 * 4 + a % 4 * 16 / 16 ≡ a = omega arith in ap (λ x. some (x ∷ [])) e

decode_raw-raw_url_encode :
    (b : Bytes) → AreBytes b → decode_raw b'-' b'_' (raw_url_encode b) ≡ some b
unfolding raw_url_encode decode_raw four three two
decode_raw-raw_url_encode [] h = refl
decode_raw-raw_url_encode (a ∷ []) (ha, _) =
    rw (digit-url_letter (a / 4) (omega arith), digit-url_letter (a % 4 * 16) (omega arith))
      (two_digits a ha)
decode_raw-raw_url_encode (a ∷ b ∷ []) (ha, (hb, _)) =
    let x : a / 4 * 4 + (a % 4 * 16 + b / 16) / 16 ≡ a = omega arith in
    let y : (a % 4 * 16 + b / 16) % 16 * 16 + b % 16 * 4 / 4 ≡ b = omega arith in
    rw
      (
        digit-url_letter (a / 4) (omega arith),
        digit-url_letter (a % 4 * 16 + b / 16) (omega arith),
        digit-url_letter (b % 16 * 4) (omega arith),
        three,
        x,
        y,
      )
      refl
decode_raw-raw_url_encode (a ∷ b ∷ c ∷ s) (ha, (hb, (hc, hs))) =
    let x : a / 4 * 4 + (a % 4 * 16 + b / 16) / 16 ≡ a = omega arith in
    let y : (a % 4 * 16 + b / 16) % 16 * 16 + (b % 16 * 4 + c / 64) / 4 ≡ b = omega arith in
    let z : (b % 16 * 4 + c / 64) % 4 * 64 + c % 64 ≡ c = omega arith in
    rw
      (
        digit-url_letter (a / 4) (omega arith),
        digit-url_letter (a % 4 * 16 + b / 16) (omega arith),
        digit-url_letter (b % 16 * 4 + c / 64) (omega arith),
        digit-url_letter (c % 64) (omega arith),
        decode_raw-raw_url_encode s hs,
        four,
        x,
        y,
        z,
      )
      refl

pub raw_url_decode-raw_url_encode :
    (b : Bytes) → AreBytes b → raw_url_decode (raw_url_encode b) ≡ some b
unfolding raw_url_decode
raw_url_decode-raw_url_encode b h =
    ap (decode_raw b'-' b'_') (without_newlines-raw_url_encode b h) ∙ decode_raw-raw_url_encode b h
