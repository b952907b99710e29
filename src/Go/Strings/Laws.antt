-- ===== src/Go/Strings/Laws.antt =====
-- Prefixes, suffixes and cuts of texts.
use siwx_go.Base.{
  ℕ, ◌-◌, Bool, true, false, [], ◌∷◌, ◌++◌, ◌≡◌, ◌≢◌, inl, inr, refl, ap, arith, leb, equal_iff,
  length, drop, length-append, take-append-drop, take_all, drop_all, le→leb, Bytes, Option-cases,
  &&-split, some, All, All-append,
}
use siwx_go.Go.Strings.{
  has_prefix, trim_prefix, has_suffix, trim_suffix, contains_byte, cut, all_bytes,
}

-- The byte `b` does not occur.
abbrev pub Lacks : ℕ → Bytes → Type 0
Lacks b = All (λ c. c ≢ b)

-- The text is one line: no line end and no carriage return.
abbrev pub OneLine : Bytes → Type 0
OneLine s = Lacks b'\n' s × Lacks b'\r' s

pub OneLine-append : (s t : Bytes) → OneLine s → OneLine t → OneLine (s ++ t)
OneLine-append s t hs ht = (All-append _ s t hs.0 ht.0, All-append _ s t hs.1 ht.1)

pub has_prefix-append : (p s : Bytes) → has_prefix (p ++ s) p ≡ true
unfolding has_prefix
has_prefix-append [] s = refl
has_prefix-append (x ∷ p) s = ground (arith, has_prefix-append p s)

pub trim_prefix-append : (p s : Bytes) → trim_prefix (p ++ s) p ≡ s
unfolding trim_prefix
trim_prefix-append p s = rw (has_prefix-append p s) (drop_all p s)

pub append_of_has_prefix : (s p : Bytes) → has_prefix s p ≡ true → s ≡ p ++ drop (length p) s
unfolding has_prefix
append_of_has_prefix s [] h = refl
append_of_has_prefix [] (x ∷ p) h = cc
append_of_has_prefix (c ∷ s) (x ∷ p) h = ground (arith, append_of_has_prefix s p)

pub append-trim_prefix : (s p : Bytes) → has_prefix s p ≡ true → s ≡ p ++ trim_prefix s p
unfolding trim_prefix
append-trim_prefix s p h = rw h (append_of_has_prefix s p h)

pub has_suffix-append : (s p : Bytes) → has_suffix (s ++ p) p ≡ true
unfolding has_suffix
has_suffix-append s p =
    let e : length (s ++ p) - length p ≡ length s = omega (arith, length-append s p) in
    let l : leb (length p) (length (s ++ p)) ≡ true =
      le→leb _ _ (omega (arith, length-append s p)) in
    rw (l, e, drop_all s p) ((equal_iff p p).1 refl)

pub trim_suffix-append : (s p : Bytes) → trim_suffix (s ++ p) p ≡ s
unfolding trim_suffix
trim_suffix-append s p =
    let e : length (s ++ p) - length p ≡ length s = omega (arith, length-append s p) in
    rw (has_suffix-append s p, e) (take_all s p)

pub trim_suffix_append : (s p : Bytes) → has_suffix s p ≡ true → s ≡ trim_suffix s p ++ p
unfolding trim_suffix has_suffix
trim_suffix_append s p h =
    ground
      (arith, equal_iff (drop (length s - length p) s) p, take-append-drop (length s - length p) s)

pub Lacks-of_contains : (s : Bytes) (b : ℕ) → contains_byte s b ≡ false → Lacks b s
unfolding contains_byte
Lacks-of_contains [] b h = tt
Lacks-of_contains (c ∷ s) b h = ground (arith, Lacks-of_contains s b)

pub contains_of_Lacks : (s : Bytes) (b : ℕ) → Lacks b s → contains_byte s b ≡ false
unfolding contains_byte
contains_of_Lacks [] b h = refl
contains_of_Lacks (c ∷ s) b (hc, hs) = ground (arith, contains_of_Lacks s b hs)

pub cut_append : (s t : Bytes) (sep : ℕ) → Lacks sep s → cut (s ++ sep ∷ t) sep ≡ some (s, t)
unfolding cut
cut_append [] t sep h = ground arith
cut_append (c ∷ s) t sep (hc, hs) = ground (arith, cut_append s t sep hs)

module _ (sep : ℕ) where
  append_of_cut_cons :
      (c : ℕ) (s : Bytes) {a b : Bytes}
      → ((a' b' : Bytes) → cut s sep ≡ some (a', b') → (s ≡ a' ++ sep ∷ b') × Lacks sep a')
      → cut (c ∷ s) sep ≡ some (a, b)
      → (c ∷ s ≡ a ++ sep ∷ b) × Lacks sep a
  unfolding cut
  append_of_cut_cons c s ih h = elim (Option-cases (cut s sep)) [
    | inl e ↦ ground arith
    | inr (p, e) ↦ ground (arith, ih p.0 p.1)
  ]

pub append_of_cut :
    (s : Bytes) (sep : ℕ) (a b : Bytes) → cut s sep ≡ some (a, b) → (s ≡ a ++ sep ∷ b) × Lacks sep a
unfolding cut
append_of_cut [] sep a b h = cc
append_of_cut (c ∷ s) sep a b h = append_of_cut_cons sep c s (λ x y. append_of_cut s sep x y) h

pub all_bytes-Lacks :
    (p : ℕ → Bool) (s : Bytes) (b : ℕ) → p b ≡ false → all_bytes p s ≡ true → Lacks b s
unfolding all_bytes
all_bytes-Lacks p [] b f h = tt
all_bytes-Lacks p (c ∷ s) b f h =
    let (hc, hs) = &&-split (p c) (all_bytes p s) h in
    (λ e. cc (hc, f, ap p e), all_bytes-Lacks p s b f hs)

pub all_bytes-All : (p : ℕ → Bool) (s : Bytes) → all_bytes p s ≡ true → All (λ c. p c ≡ true) s
unfolding all_bytes
all_bytes-All p [] h = tt
all_bytes-All p (c ∷ s) h =
    let (hc, hs) = &&-split (p c) (all_bytes p s) h in (hc, all_bytes-All p s hs)

pub All-all_bytes : (p : ℕ → Bool) (s : Bytes) → All (λ c. p c ≡ true) s → all_bytes p s ≡ true
unfolding all_bytes
All-all_bytes p [] h = refl
All-all_bytes p (c ∷ s) (hc, hs) = rw (hc, All-all_bytes p s hs)
