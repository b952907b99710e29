-- ===== src/Go/Strconv/RoundTrip.antt =====
-- `Atoi` on the texts that `%d` writes.
use siwx_go.Base.{
  ℕ, suc, ◌+◌, ◌^◌, ◌<◌, List, [], ◌∷◌, map, All, Bytes, Bool, true, false, some, ◌==◌,
  if◌then◌else◌, ◌≡◌, ◌≢◌, refl, sym, ap, ◌∙◌, arith, Bool-cases, inl, inr, ==_iff, lt→ltb, le→leb,
}
use siwx_go.Go.BigInt.{value_from}
use siwx_go.Go.BigInt.Laws.{digits, All-digits, value-digits}
use siwx_go.Go.Strconv.{ℤ, pos, negsuc, decimal, digits_of, in_range, checked, unsigned, atoi}

digits_of-map : (ds : List ℕ) → All (λ d. d < 10) ds → digits_of (map (λ d. b'0' + d) ds) ≡ some ds
unfolding digits_of
digits_of-map [] h = refl
digits_of-map (d ∷ ds) (hd, hs) =
    rw
      (
        le→leb b'0' (b'0' + d) (omega arith),
        le→leb (b'0' + d) b'9' (omega arith),
        digits_of-map ds hs,
      )
      (ap (λ k. some (k ∷ ds)) (omega arith))

-- The digits of a number, with one digit for zero.
some_digits : ℕ → List ℕ
some_digits n = if n == 0 then 0 ∷ [] else digits 10 n

decimal-some_digits : (n : ℕ) → decimal n ≡ map (λ d. b'0' + d) (some_digits n)
unfolding decimal some_digits digits
decimal-some_digits n = ground arith

some_digits_lem :
    (n : ℕ) → All (λ d. d < 10) (some_digits n) × (value_from 10 0 (some_digits n) ≡ n)
unfolding some_digits
some_digits_lem n = elim (Bool-cases (n == 0)) [
  | inl e ↦ rw e ((omega arith, tt), sym ((==_iff n 0).0 e))
  | inr e ↦ rw e (All-digits 10 (omega arith) n, value-digits 10 (omega arith) n)
]

some_digits_ne : (n : ℕ) → some_digits n ≢ []
unfolding some_digits
some_digits_ne n h = elim (Bool-cases (n == 0)) [
  | inl e ↦ cc
  | inr e ↦
      let none_left : digits 10 n ≡ [] = rw e at h in
      let v : n ≡ 0 = sym (value-digits 10 (omega arith) n) ∙ ap (value_from 10 0) none_left in
      absurd (let w = (==_iff n 0).1 v in cc)
]

unsigned-map :
    (negative : Bool) (ds : List ℕ)
    → ds ≢ []
    → All (λ d. d < 10) ds
    → unsigned negative (map (λ d. b'0' + d) ds) ≡ in_range negative (value_from 10 0 ds)
unfolding unsigned
unsigned-map negative [] h a = absurd (h refl)
unsigned-map negative (d ∷ ds) h a = ap (checked negative) (digits_of-map (d ∷ ds) a)

atoi-map :
    (ds : List ℕ)
    → ds ≢ []
    → All (λ d. d < 10) ds
    → atoi (map (λ d. b'0' + d) ds) ≡ in_range false (value_from 10 0 ds)
unfolding atoi
atoi-map [] h a = absurd (h refl)
atoi-map (d ∷ ds) h a =
    let minus : (b'0' + d == b'-') ≡ false = ground arith in
    let plus : (b'0' + d == b'+') ≡ false = ground arith in
    rw (minus, plus) (unsigned-map false (d ∷ ds) h a)

-- The text of an integer.
abbrev pub int_text : ℤ → Bytes
int_text (pos n) = decimal n
int_text (negsuc n) = b'-' ∷ decimal (suc n)

-- An `int` of 64 bits.
abbrev pub IsInt64 : ℤ → Type 0
IsInt64 (pos n) = n < 2 ^ 63
IsInt64 (negsuc n) = n < 2 ^ 63

pub atoi-int_text : (z : ℤ) → IsInt64 z → atoi (int_text z) ≡ some z
unfolding atoi
atoi-int_text (pos n) h =
    let (a, v) = some_digits_lem n in
    rw (decimal-some_digits n) (atoi-map (some_digits n) (some_digits_ne n) a)
    ∙ ap (in_range false) v
    ∙ rw (lt→ltb n (2 ^ 63) h) refl
atoi-int_text (negsuc n) h =
    let (a, v) = some_digits_lem (suc n) in
    rw (decimal-some_digits (suc n))
      (unsigned-map true (some_digits (suc n)) (some_digits_ne (suc n)) a)
    ∙ ap (in_range true) v
    ∙ rw (le→leb (suc n) (2 ^ 63) (omega arith)) refl

pub int_text_ne : (z : ℤ) → int_text z ≢ []
int_text_ne (pos n) h = map_ne (some_digits n) (some_digits_ne n) (sym (decimal-some_digits n) ∙ h)
  where
    map_ne : (ds : List ℕ) → ds ≢ [] → map (λ d. b'0' + d) ds ≢ []
    map_ne [] k e = k refl
    map_ne (d ∷ ds) k e = cc
int_text_ne (negsuc n) h = cc
