-- ===== src/Go/Strings/Lines.antt =====
-- Splitting a text that was written line by line.
use mathlib.Core.List.{cons-ne-nil}
use siwx_go.Base.{
  inl, inr, Bool-cases, ℕ, List, [], ◌∷◌, ◌++◌, ◌≡◌, ◌≢◌, refl, ap, ◌∙◌, arith, Bytes, All,
  append_assoc, ◌==◌,
}
use siwx_go.Go.Strings.{trim_right, extend_first, split}
use siwx_go.Go.Strings.Laws.{Lacks}

-- The lines, each with its end.
unfoldable pub unlines : List Bytes → Bytes
unlines [] = []
unlines (l ∷ ls) = l ++ b'\n' ∷ unlines ls

-- The lines with an end between two of them.
pub join_lines : Bytes → List Bytes → Bytes
join_lines l [] = l
join_lines l (m ∷ ls) = l ++ b'\n' ∷ join_lines m ls

-- The last of the lines `l ∷ ls`.
abbrev pub last_line : Bytes → List Bytes → Bytes
last_line l [] = l
last_line l (m ∷ ls) = last_line m ls

pub unlines-append : (xs ys : List Bytes) → unlines (xs ++ ys) ≡ unlines xs ++ unlines ys
unfolding unlines
unlines-append [] ys = refl
unlines-append (x ∷ xs) ys = simp (unlines-append xs ys, append_assoc)

unlines-join_lines :
    (l : Bytes) (ls : List Bytes) → unlines (l ∷ ls) ≡ join_lines l ls ++ b'\n' ∷ []
unfolding unlines join_lines
unlines-join_lines l [] = refl
unlines-join_lines l (m ∷ ls) = simp (unlines-join_lines m ls, append_assoc)

split_line : (l s : Bytes) → Lacks b'\n' l → split (l ++ b'\n' ∷ s) b'\n' ≡ l ∷ split s b'\n'
unfolding split extend_first
split_line [] s h = ground arith
split_line (c ∷ l) s (hc, hl) = ground (arith, split_line l s hl)

split_last : (l : Bytes) → Lacks b'\n' l → split l b'\n' ≡ l ∷ []
unfolding split extend_first
split_last [] h = refl
split_last (c ∷ l) (hc, hl) = ground (arith, split_last l hl)

pub split-join_lines :
    (l : Bytes) (ls : List Bytes)
    → Lacks b'\n' l
    → All (Lacks b'\n') ls
    → split (join_lines l ls) b'\n' ≡ l ∷ ls
unfolding join_lines
split-join_lines l [] h _ = split_last l h
split-join_lines l (m ∷ ls) h (hm, hls) =
    split_line l (join_lines m ls) h ∙ ap (λ t. l ∷ t) (split-join_lines m ls hm hls)

trim_right_step :
    (c b : ℕ) (s : Bytes) → trim_right s b ≢ [] → trim_right (c ∷ s) b ≡ c ∷ trim_right s b
unfolding trim_right
trim_right_step c b s h = ground arith

append-ne-nil : (l s : Bytes) → s ≢ [] → l ++ s ≢ []
append-ne-nil [] s h = h
append-ne-nil (c ∷ l) s h = cons-ne-nil c (l ++ s)

-- `trim_right` passes over a text that ends in something else.
trim_right-append :
    (l s : Bytes) (b : ℕ) → trim_right s b ≢ [] → trim_right (l ++ s) b ≡ l ++ trim_right s b
trim_right-append [] s b h = refl
trim_right-append (c ∷ l) s b h =
    let ih = trim_right-append l s b h in
    trim_right_step c b (l ++ s) (rw ih (append-ne-nil l (trim_right s b) h)) ∙ ap (λ t. c ∷ t) ih

trim_right_line : (l : Bytes) (b : ℕ) → Lacks b l → trim_right (l ++ b ∷ []) b ≡ l
unfolding trim_right
trim_right_line [] b h = ground arith
trim_right_line (c ∷ l) b (hc, hl) = ground (arith, trim_right_line l b hl)

join_lines-ne-nil : (l : Bytes) (ls : List Bytes) → last_line l ls ≢ [] → join_lines l ls ≢ []
unfolding join_lines
join_lines-ne-nil l [] h = h
join_lines-ne-nil l (m ∷ ls) h = append-ne-nil l _ (cons-ne-nil _ _)

trim_right-join_lines :
    (l : Bytes) (ls : List Bytes)
    → Lacks b'\n' l
    → All (Lacks b'\n') ls
    → last_line l ls ≢ []
    → trim_right (join_lines l ls ++ b'\n' ∷ []) b'\n' ≡ join_lines l ls
unfolding join_lines
trim_right-join_lines l [] h _ e = trim_right_line l b'\n' h
trim_right-join_lines l (m ∷ ls) h (hm, hls) e =
    let ih = trim_right-join_lines m ls hm hls e in
    let full : trim_right (join_lines m ls ++ b'\n' ∷ []) b'\n' ≢ [] =
      rw ih (join_lines-ne-nil m ls e) in
    let stepped = trim_right_step b'\n' b'\n' (join_lines m ls ++ b'\n' ∷ []) full in
    rw append_assoc (
      trim_right-append l (b'\n' ∷ (join_lines m ls ++ b'\n' ∷ [])) b'\n'
        (rw stepped (cons-ne-nil _ _))
      ∙ ap (λ t. l ++ t) (stepped ∙ ap (λ t. b'\n' ∷ t) ih))

-- A text written line by line is read back, if no line holds a line end and the last is not empty.
pub split-unlines :
    (l : Bytes) (ls : List Bytes)
    → Lacks b'\n' l
    → All (Lacks b'\n') ls
    → last_line l ls ≢ []
    → split (trim_right (unlines (l ∷ ls)) b'\n') b'\n' ≡ l ∷ ls
split-unlines l ls h hs e =
    rw (unlines-join_lines l ls, trim_right-join_lines l ls h hs e) (split-join_lines l ls h hs)

All-extend_first :
    (b c : ℕ) (ps : List Bytes) → c ≢ b → All (Lacks b) ps → All (Lacks b) (extend_first c ps)
unfolding extend_first
All-extend_first b c [] hc _ = ((hc, tt), tt)
All-extend_first b c (p ∷ ps) hc (hp, hps) = ((hc, hp), hps)

-- No part holds the separator.
pub All-split_sep : (s : Bytes) (sep : ℕ) → All (Lacks sep) (split s sep)
unfolding split
All-split_sep [] sep = (tt, tt)
All-split_sep (c ∷ s) sep = elim (Bool-cases (c == sep)) [
  | inl e ↦ rw e (tt, All-split_sep s sep)
  | inr e ↦ rw e (All-extend_first sep c (split s sep) (ground arith) (All-split_sep s sep))
]

-- A byte that a text lacks is in no part of it.
pub All-split-Lacks : (s : Bytes) (sep b : ℕ) → Lacks b s → All (Lacks b) (split s sep)
unfolding split
All-split-Lacks [] sep b h = (tt, tt)
All-split-Lacks (c ∷ s) sep b (hc, hs) = elim (Bool-cases (c == sep)) [
  | inl e ↦ rw e (tt, All-split-Lacks s sep b hs)
  | inr e ↦ rw e (All-extend_first b c (split s sep) hc (All-split-Lacks s sep b hs))
]

pub trim_right-Lacks : (s : Bytes) (c b : ℕ) → Lacks b s → Lacks b (trim_right s c)
unfolding trim_right
trim_right-Lacks [] c b h = tt
trim_right-Lacks (x ∷ s) c b (hx, hs) = ground (arith, trim_right-Lacks s c b hs)
