-- ===== src/Go/Strings.antt =====
-- The functions of Go's packages `strings` and `bytes` that the program calls, over bytes.
pub mod Laws
pub mod Lines
pub mod Trimmed
use mathlib.Core.List.{reverse}
use siwx_go.Base.{
  ℕ, ◌-◌, ◌==◌, Bool, true, false, ◌&&◌, ◌||◌, not, List, [], ◌∷◌, ◌++◌, leb, equal, length, take,
  drop, Bytes, Option, none, some, if◌then◌else◌,
}

unfoldable pub has_prefix : Bytes → Bytes → Bool
has_prefix s [] = true
has_prefix [] (x ∷ p) = false
has_prefix (c ∷ s) (x ∷ p) = c == x && has_prefix s p

unfoldable pub trim_prefix : Bytes → Bytes → Bytes
unfolding has_prefix
trim_prefix s p = if has_prefix s p then drop (length p) s else s

unfoldable pub has_suffix : Bytes → Bytes → Bool
unfolding equal
has_suffix s p = leb (length p) (length s) && equal (drop (length s - length p) s) p

unfoldable pub trim_suffix : Bytes → Bytes → Bytes
unfolding has_suffix
trim_suffix s p = if has_suffix s p then take (length s - length p) s else s

unfoldable pub contains_byte : Bytes → ℕ → Bool
contains_byte [] b = false
contains_byte (c ∷ s) b = c == b || contains_byte s b

-- `TrimRight` with a cutset of one byte.
unfoldable pub trim_right : Bytes → ℕ → Bytes
trim_right [] b = []
trim_right (c ∷ s) b = elim (trim_right s b) [
  | [] ↦ if c == b then [] else c ∷ []
  | x ∷ r ↦ c ∷ x ∷ r
]

-- A byte in front of the first part.
unfoldable pub extend_first : ℕ → List Bytes → List Bytes
extend_first c [] = (c ∷ []) ∷ []
extend_first c (p ∷ ps) = (c ∷ p) ∷ ps

-- `Split` with a separator of one byte: there is always a part.
unfoldable pub split : Bytes → ℕ → List Bytes
unfolding extend_first
split [] sep = [] ∷ []
split (c ∷ s) sep = let parts = split s sep in if c == sep then [] ∷ parts else extend_first c parts

-- `strings.Cut` at the first `sep`: what stands in front of it and behind it. `SplitN(s, sep, 2)` and
-- a slice at `Index(s, sep)` cut the same way.
unfoldable pub cut : Bytes → ℕ → Option (Bytes × Bytes)
cut [] sep = none
cut (c ∷ s) sep =
    let rest : Option (Bytes × Bytes) = elim (cut s sep) [
      | none ↦ none
      | some (before, after) ↦ some (c ∷ before, after)
    ] in
    if c == sep then some ([], s) else rest

-- Every byte passes the test.
unfoldable pub all_bytes : (ℕ → Bool) → Bytes → Bool
all_bytes p [] = true
all_bytes p (c ∷ s) = p c && all_bytes p s

-- `unicode.IsSpace`, by the bytes of the rune.
abbrev is_space_1 : ℕ → Bool
is_space_1 c = leb b'\t' c && leb c b'\r' || c == b' '

abbrev is_space_2 : ℕ → ℕ → Bool
is_space_2 c d = c == 0xc2 && (d == 0x85 || d == 0xa0)

abbrev is_space_3 : ℕ → ℕ → ℕ → Bool
is_space_3 c d e =
    c == 0xe1 && d == 0x9a && e == 0x80
    || c == 0xe2 && d == 0x80 && (leb 0x80 e && leb e 0x8a || e == 0xa8 || e == 0xa9 || e == 0xaf)
    || c == 0xe2 && d == 0x81 && e == 0x9f
    || c == 0xe3 && d == 0x80 && e == 0x80

-- What is left behind the spaces in front.
unfoldable pub trim_front : (ℕ → ℕ → Bool) → (ℕ → ℕ → ℕ → Bool) → Bytes → Bytes
trim_front two three [] = []
trim_front two three (c ∷ []) = if is_space_1 c then [] else c ∷ []
trim_front two three (c ∷ d ∷ []) =
    let rest = trim_front two three (d ∷ []) in
    if is_space_1 c then rest else if two c d then [] else c ∷ d ∷ []
trim_front two three (c ∷ d ∷ e ∷ s) =
    let rest_1 = trim_front two three (d ∷ e ∷ s) in
    let rest_2 = trim_front two three (e ∷ s) in
    let rest_3 = trim_front two three s in
    if is_space_1 c
    then rest_1
    else if two c d
    then rest_2
    else if three c d e
    then rest_3
    else c ∷ d ∷ e ∷ s

-- `TrimSpace`
unfoldable pub trim_space : Bytes → Bytes
unfolding trim_front
trim_space s = reverse (
    trim_front (λ d c. is_space_2 c d) (λ e d c. is_space_3 c d e)
      (reverse (trim_front is_space_2 is_space_3 s)))
