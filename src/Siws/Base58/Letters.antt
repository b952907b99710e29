-- ===== src/Siws/Base58/Letters.antt =====
-- siws/base58.go: letters and digits.
use siwx_go.Base.{
  ℕ, zero, suc, ◌+◌, ◌*◌, ◌<◌, Bool-cases, ◌==◌, Bool, true, false, List, [], ◌∷◌, ◌++◌, map, ltb,
  length, replicate, Bytes, some, ◌≡◌, ◌≢◌, refl, sym, ap, ◌∙◌, arith, All, all_below,
  all_below_sound, Option-cases, inl, inr,
}
use siwx_go.Go.BigInt.{value_from}
use siwx_go.Siws.Base58.{alphabet, nth, index_from, digit_of, letter_of, accumulate}
use siwx_go.Siws.Errors.{Result, ok, err, panicked, base58_bad_character, Result-cases}

digit_is : Result ℕ → ℕ → Bool
digit_is (err r) d = false
digit_is panicked d = false
digit_is (ok e) d = e == d

letters_table : all_below 58 (λ d. digit_is (digit_of (letter_of d)) d) ≡ true
unfolding all_below digit_is digit_of letter_of
letters_table = refl

digit_is-eq : (o : Result ℕ) (d : ℕ) → digit_is o d ≡ true → o ≡ ok d
unfolding digit_is
digit_is-eq (err r) d h = cc
digit_is-eq panicked d h = cc
digit_is-eq (ok e) d h = ground arith

pub digit_of-letter_of : (d : ℕ) → d < 58 → digit_of (letter_of d) ≡ ok d
digit_of-letter_of d h =
    digit_is-eq (digit_of (letter_of d)) d
      (all_below_sound (λ x. digit_is (digit_of (letter_of x)) x) 58 letters_table d h)

nth-index_from :
    (s : Bytes) (i c d : ℕ)
    → index_from i s c ≡ some d
    → (j : ℕ) × (d ≡ i + j) × (j < length s) × (nth s j ≡ c)
unfolding index_from nth
nth-index_from [] i c d h = cc
nth-index_from (x ∷ s) i c d h = elim (Bool-cases (c == x)) [
  | inl e ↦ (0, ground arith, omega arith, ground arith)
  | inr e ↦
      let (j, at, within, is) = nth-index_from s (i + 1) c d (rw e at h) in
      (suc j, omega arith, omega arith, is)
]

pub letter_of-digit_of : (c d : ℕ) → digit_of c ≡ ok d → (d < 58) × (letter_of d ≡ c)
unfolding digit_of letter_of
letter_of-digit_of c d h = elim (Bool-cases (ltb 127 c)) [
  | inl e ↦ absurd (cc (rw (e, digit_of) at h))
  | inr e ↦ elim (Option-cases (index_from 0 alphabet c)) [
    | inl f ↦ absurd (ground arith)
    | inr (x, f) ↦
        let (j, at, within, is) = nth-index_from alphabet 0 c x f in
        let same : d ≡ j = ground arith in (omega arith, ap (nth alphabet) same ∙ is)
  ]
]

one_is_zero : digit_of b'1' ≡ ok 0
unfolding digit_of
one_is_zero = refl

pub zero_is_one : letter_of 0 ≡ b'1'
unfolding letter_of
zero_is_one = refl

pub accumulate-map :
    (ds : List ℕ) (n : ℕ)
    → All (λ d. d < 58) ds
    → accumulate n (map letter_of ds) ≡ ok (value_from 58 n ds)
unfolding accumulate
accumulate-map [] n _ = refl
accumulate-map (d ∷ ds) n (hd, hds) =
    rw (digit_of-letter_of d hd, accumulate) (accumulate-map ds (n * 58 + d) hds)

-- What the loop accepts is the spelling of some digits, and it returns their value.
pub record Spells (s : Bytes) (n m : ℕ) : Type 0 where
  pub digits_of : List ℕ
  pub in_range : All (λ d. d < 58) digits_of
  pub spelling : map letter_of digits_of ≡ s
  pub value : value_from 58 n digits_of ≡ m

pub accumulate-Spells : (s : Bytes) (n m : ℕ) → accumulate n s ≡ ok m → Spells s n m
unfolding accumulate
accumulate-Spells [] n m h = record {
  digits_of = [];
  in_range = tt;
  spelling = refl;
  value = ground arith;
}
accumulate-Spells (r ∷ s) n m h = elim (Result-cases (digit_of r)) [
  | inr (inl (x, e)) ↦ absurd (cc (rw (e, accumulate) at h))
  | inr (inr e) ↦ absurd (cc (rw (e, accumulate) at h))
  | inl (d, e) ↦
      let ih = accumulate-Spells s (n * 58 + d) m (rw (e, accumulate) at h) in
      let l = letter_of-digit_of r d e in
      record {
        digits_of = d ∷ ih.digits_of;
        in_range = (l.0, ih.in_range);
        spelling = cc (l.1, ih.spelling);
        value = ih.value;
      }
]

-- Only the digit 0 is written as '1'.
pub letter_of-ne-one : (d : ℕ) → 0 < d → d < 58 → letter_of d ≢ b'1'
letter_of-ne-one d pos h e =
    let z : Result.ok d ≡ ok 0 = sym (digit_of-letter_of d h) ∙ ap digit_of e ∙ one_is_zero in
    absurd (ground arith)

accumulate_one : (s : Bytes) → accumulate 0 (b'1' ∷ s) ≡ accumulate 0 s
unfolding accumulate digit_of
accumulate_one s = refl

pub map-replicate : (k : ℕ) → map letter_of (replicate k 0) ≡ replicate k b'1'
unfolding letter_of
map-replicate zero = refl
map-replicate (suc k) = ap (λ t. b'1' ∷ t) (map-replicate k)

pub accumulate-replicate :
    (k : ℕ) (s : Bytes) → accumulate 0 (replicate k b'1' ++ s) ≡ accumulate 0 s
accumulate-replicate zero s = refl
accumulate-replicate (suc k) s = accumulate_one (replicate k b'1' ++ s) ∙ accumulate-replicate k s

-- A byte that is no letter is in no text that the loop accepts.
pub accumulate-Lacks :
    (c : ℕ) (s : Bytes) (n m : ℕ)
    → digit_of c ≡ err base58_bad_character
    → accumulate n s ≡ ok m
    → All (λ r. r ≢ c) s
unfolding accumulate
accumulate-Lacks c [] n m e h = tt
accumulate-Lacks c (r ∷ s) n m e h = elim (Result-cases (digit_of r)) [
  | inr (inl (y, x)) ↦ absurd (cc (rw (x, accumulate) at h))
  | inr (inr x) ↦ absurd (cc (rw (x, accumulate) at h))
  | inl (d, x) ↦ (
    λ same. absurd (cc (ap digit_of same)),
    accumulate-Lacks c s (n * 58 + d) m e (rw (x, accumulate) at h),
  )
]

pub not_letters :
    (digit_of b'\n' ≡ err base58_bad_character) × (digit_of b'\r' ≡ err base58_bad_character)
unfolding digit_of
not_letters = (refl, refl)
