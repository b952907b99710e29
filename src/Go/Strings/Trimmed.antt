-- ===== src/Go/Strings/Trimmed.antt =====
-- `TrimRight` of the line ends, and `Split` at them.
use siwx_go.Base.{
  ℕ, [], ◌∷◌, ◌++◌, List, All, Bytes, if◌then◌else◌, ◌==◌, ◌≡◌, refl, sym, ap, ◌∙◌, ◌⊎◌, Bool-cases,
  inl, inr,
}
use siwx_go.Go.Strings.{split, trim_right, extend_first}

-- The empty parts behind the last line.
abbrev pub Blank : List Bytes → Type 0
Blank = All (λ (l : Bytes). l ≡ [])

-- A text is split as its trimmed text is, with empty parts behind.
pub record Trimmed (s : Bytes) : Type 0 where
  pub first : Bytes
  pub others : List Bytes
  pub blank : List Bytes
  pub blank_is : Blank blank
  pub trimmed_is : split (trim_right s b'\n') b'\n' ≡ first ∷ others
  pub whole_is : split s b'\n' ≡ first ∷ (others ++ blank)

trim_right-cases :
    (c : ℕ) (s : Bytes)
    → ((trim_right s b'\n' ≡ []) × (trim_right (c ∷ s) b'\n' ≡ (if c == b'\n' then [] else c ∷ [])))
      ⊎ (trim_right (c ∷ s) b'\n' ≡ c ∷ trim_right s b'\n')
unfolding trim_right
trim_right-cases c s = cases (trim_right s b'\n') refl
  where
    cases :
        (t : Bytes)
        → trim_right s b'\n' ≡ t
        → ((trim_right s b'\n' ≡ [])
            × (trim_right (c ∷ s) b'\n' ≡ (if c == b'\n' then [] else c ∷ [])))
          ⊎ (trim_right (c ∷ s) b'\n' ≡ c ∷ trim_right s b'\n')
    cases [] e = inl (e, rw (trim_right, e) refl)
    cases (x ∷ t) e = inr (rw (trim_right, e) refl)

pub Trimmed-split : (s : Bytes) → Trimmed s
unfolding split extend_first trim_right
Trimmed-split [] = record {
  first = [];
  others = [];
  blank = [];
  blank_is = tt;
  trimmed_is = refl;
  whole_is = refl;
}
Trimmed-split (c ∷ s) =
    let r = Trimmed-split s in
    elim (trim_right-cases c s) [
      | inl (e, f) ↦
          let alone : [] ∷ [] ≡ r.first ∷ r.others =
            ap (λ t. split t b'\n') (sym e) ∙ r.trimmed_is in
          let no_text : r.first ≡ [] = cc in
          let no_others : r.others ≡ [] = cc in
          let whole : split s b'\n' ≡ [] ∷ r.blank =
            r.whole_is ∙ (λ i. no_text i ∷ (no_others i ++ r.blank)) in
          elim (Bool-cases (c == b'\n')) [
            | inl n ↦ record {
              first = [];
              others = [];
              blank = [] ∷ r.blank;
              blank_is = (refl, r.blank_is);
              trimmed_is = rw (f, n) refl;
              whole_is = rw (n, whole) refl;
            }
            | inr n ↦ record {
              first = c ∷ [];
              others = [];
              blank = r.blank;
              blank_is = r.blank_is;
              trimmed_is = rw (f, n) (rw n refl);
              whole_is = rw (n, whole) refl;
            }
          ]
      | inr f ↦ elim (Bool-cases (c == b'\n')) [
        | inl n ↦ record {
          first = [];
          others = r.first ∷ r.others;
          blank = r.blank;
          blank_is = r.blank_is;
          trimmed_is = rw (f, n) (ap (λ t. [] ∷ t) r.trimmed_is);
          whole_is = rw n (ap (λ t. [] ∷ t) r.whole_is);
        }
        | inr n ↦ record {
          first = c ∷ r.first;
          others = r.others;
          blank = r.blank;
          blank_is = r.blank_is;
          trimmed_is = rw (f, n) (ap (extend_first c) r.trimmed_is);
          whole_is = rw n (ap (extend_first c) r.whole_is);
        }
      ]
    ]
