-- ===== src/Go/BigInt/Laws.antt =====
-- Digits and values in a base from two, for math/big's `Bytes` and `SetBytes`.
use mathlib.Core.List.{reverse, reverse-cons, foldl-append}
use native.Mathlib.Nat.{div-eq_of_lt-le, div-add-mod', pow-suc, mod-lt}
use mathlib.Core.WellFounded
use siwx_go.Base.{
  ◌^◌, length, length-reverse, ℕ, zero, suc, ◌+◌, ◌*◌, ◌/◌, ◌%◌, ◌≤◌, ◌<◌, ◌==◌, Bool-cases, inl,
  inr, List, [], ◌∷◌, ◌++◌, ◌≡◌, refl, sym, ap, ◌∙◌, arith, All, append-nil, append_assoc, lt_wf,
  All-reverse,
}
use siwx_go.Go.BigInt.{value_from, low_digits_on, low_digits}

-- Most significant first.
unfoldable pub digits : ℕ → ℕ → List ℕ
digits base n = reverse (low_digits base n)

unfoldable pub drop_zeros : List ℕ → List ℕ
drop_zeros [] = []
drop_zeros (zero ∷ ds) = drop_zeros ds
drop_zeros (suc d ∷ ds) = suc d ∷ ds

module _ (base : ℕ) (two : 2 ≤ base) where
  quotient_lt : (n : ℕ) → 0 < n → n / base < n
  quotient_lt n h = grind arith

  low_digits_on-enough :
      (f g n : ℕ) → n ≤ f → n ≤ g → low_digits_on f base n ≡ low_digits_on g base n
  unfolding low_digits_on
  low_digits_on-enough zero zero n hf hg = refl
  low_digits_on-enough zero (suc g) n hf hg = ground arith
  low_digits_on-enough (suc f) zero n hf hg = ground arith
  low_digits_on-enough (suc f) (suc g) n hf hg = elim (Bool-cases (n == 0)) [
    | inl z ↦ rw (z, low_digits_on)
    | inr p ↦
        let l : n / base < n = quotient_lt n (ground arith) in
        rw (p, low_digits_on)
          (ap (λ t. n % base ∷ t) (low_digits_on-enough f g (n / base) (omega arith) (omega arith)))
  ]

  -- The loop of the source: a positive number gives its last digit and then those of the quotient.
  pub low_digits_step : (n : ℕ) → 0 < n → low_digits base n ≡ n % base ∷ low_digits base (n / base)
  unfolding low_digits low_digits_on
  low_digits_step zero h = elim h [ ]
  low_digits_step (suc n) h =
      let l : suc n / base < suc n = quotient_lt (suc n) h in
      ground
        (arith, low_digits_on-enough n (suc n / base) (suc n / base) (omega arith) (omega arith))

  All-low_digits_on : (f n : ℕ) → All (λ d. d < base) (low_digits_on f base n)
  unfolding low_digits_on
  All-low_digits_on zero n = tt
  All-low_digits_on (suc f) n = elim (Bool-cases (n == 0)) [
    | inl z ↦ rw (z, low_digits_on) tt
    | inr p ↦ rw (p, low_digits_on) (mod-lt n (omega arith), All-low_digits_on f (n / base))
  ]

  pub All-digits : (n : ℕ) → All (λ d. d < base) (digits base n)
  unfolding digits low_digits
  All-digits n = All-reverse _ (low_digits_on n base n) (All-low_digits_on n n)

  -- The digits of a positive number: those of its quotient, and its last one.
  pub digits_step : (n : ℕ) → 0 < n → digits base n ≡ digits base (n / base) ++ n % base ∷ []
  unfolding digits
  digits_step n h = rw (low_digits_step n h) (reverse-cons (n % base) (low_digits base (n / base)))

  pub digits_zero : digits base 0 ≡ []
  unfolding digits low_digits low_digits_on
  digits_zero = refl

  -- Another digit behind a positive number.
  digits_snoc :
      (n d : ℕ) → d < base → 0 < n * base + d → digits base (n * base + d) ≡ digits base n ++ d ∷ []
  digits_snoc n d hd h =
      let q : (n * base + d) / base ≡ n = div-eq_of_lt-le base (grind arith) (grind arith) in
      let r : (n * base + d) % base ≡ d =
        omega (arith, div-add-mod' (n * base + d) base, ap (λ (t : ℕ). t * base) q) in
      digits_step (n * base + d) h ∙ cc (q, r)

  -- More digits behind a positive number.
  digits-value_pos :
      (ds : List ℕ) (n : ℕ)
      → 0 < n
      → All (λ d. d < base) ds
      → digits base (value_from base n ds) ≡ digits base n ++ ds
  digits-value_pos [] n h _ = sym (append-nil _)
  digits-value_pos (d ∷ ds) n h (hd, hds) =
      digits-value_pos ds (n * base + d) (grind arith) hds
      ∙ ap (λ t. t ++ ds) (digits_snoc n d hd (grind arith))
      ∙ append_assoc (digits base n) (d ∷ []) ds

  -- The digits of the value of some digits are those digits with no zero in front.
  pub digits-value :
      (ds : List ℕ) → All (λ d. d < base) ds → digits base (value_from base 0 ds) ≡ drop_zeros ds
  unfolding drop_zeros
  digits-value [] _ = digits_zero
  digits-value (zero ∷ ds) (hd, hds) =
      let e : 0 * base + 0 ≡ 0 = omega arith in
      ap (λ k. digits base (value_from base k ds)) e ∙ digits-value ds hds
  digits-value (suc d ∷ ds) (hd, hds) =
      digits-value_pos ds (0 * base + suc d) (omega arith) hds
      ∙ ap (λ t. t ++ ds)
          (digits_snoc 0 (suc d) hd (omega arith) ∙ ap (λ t. t ++ suc d ∷ []) digits_zero)

  pub value-digits : (n : ℕ) → value_from base 0 (digits base n) ≡ n
  value-digits n =
      WellFounded.induction lt_wf {C = λ k. value_from base 0 (digits base k) ≡ k} n value_step
    where
      value_step :
          (n : ℕ)
          → ((m : ℕ) → m < n → value_from base 0 (digits base m) ≡ m)
          → value_from base 0 (digits base n) ≡ n
      value_step zero ih = rw digits_zero
      value_step (suc n) ih =
          rw (digits_step (suc n) (omega arith), foldl-append)
            (omega (
              arith,
              ap (λ (t : ℕ). t * base) (ih (suc n / base) (quotient_lt (suc n) (omega arith))),
              div-add-mod' (suc n) base,
            ))

  -- No zero in front.
  pub drop_zeros-digits : (n : ℕ) → drop_zeros (digits base n) ≡ digits base n
  drop_zeros-digits n =
      sym (digits-value (digits base n) (All-digits n)) ∙ ap (digits base) (value-digits n)

length-low_digits_suc : (n : ℕ) → length (low_digits 58 n) ≤ length (low_digits 58 (n / 58)) + 1
length-low_digits_suc zero = unfold low_digits low_digits_on in omega arith
length-low_digits_suc (suc n) =
    rw (low_digits_step 58 (omega arith) (suc n) (omega arith)) (omega arith)

-- A number below 256 ^ k has at most 2 * k digits in base 58.
length-low_digits : (k n : ℕ) → n < 256 ^ k → length (low_digits 58 n) ≤ 2 * k
length-low_digits zero zero h = unfold low_digits low_digits_on in omega arith
length-low_digits zero (suc n) h = absurd (omega arith)
length-low_digits (suc k) n h =
    let h' : n < 256 ^ k * 256 = rw pow-suc at h in
    let below : n / 58 / 58 < 256 ^ k = omega arith in
    omega (
      arith,
      length-low_digits_suc n,
      length-low_digits_suc (n / 58),
      length-low_digits k (n / 58 / 58),
    )

pub length-digits : (k n : ℕ) → n < 256 ^ k → length (digits 58 n) ≤ 2 * k
unfolding digits
length-digits k n h = rw length-reverse (length-low_digits k n h)

pub value_lt :
    (ds : List ℕ) (n : ℕ) → All (λ d. d < 256) ds → value_from 256 n ds < (n + 1) * 256 ^ length ds
value_lt [] n h = omega arith
value_lt (d ∷ ds) n (hd, hds) =
    let ih = value_lt ds (n * 256 + d) hds in
    let bound : (d + 1) * 256 ^ length ds ≤ 256 * 256 ^ length ds = grind arith in
    rw pow-suc (omega (arith, ih, bound))
