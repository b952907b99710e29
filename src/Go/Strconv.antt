-- ===== src/Go/Strconv.antt =====
-- Package `strconv`, and the verb `%d` on numbers that are not negative.
pub mod RoundTrip
use siwx_go.Base.{
  ℕ, zero, suc, ◌+◌, ◌-◌, ◌^◌, List, [], ◌∷◌, map, Bytes, Bool, true, false, ◌&&◌, none, some, ◌==◌,
  leb, ltb, if◌then◌else◌,
}
use mathlib.Core.List.{reverse}
use mathlib.Core.Option
use mathlib.Core.Option.{Option}
use siwx_go.Go.BigInt.{value_from, low_digits}

-- `fmt.Sprintf("%d", n)`
unfoldable pub decimal : ℕ → Bytes
unfolding low_digits
decimal n = if n == 0 then b'0' ∷ [] else map (λ d. b'0' + d) (reverse (low_digits 10 n))

-- `int`; `negsuc n` is -(n + 1).
pub data ℤ : Type 0 where
  pos negsuc : ℕ → ℤ

abbrev pub negated : ℕ → ℤ
negated zero = pos 0
negated (suc n) = negsuc n

-- The digits that a text spells.
pub digits_of : Bytes → Option (List ℕ)
digits_of [] = some []
digits_of (c ∷ s) =
    let rest = digits_of s in
    if leb b'0' c && leb c b'9' then Option.map (λ ds. (c - b'0') ∷ ds) rest else none

-- An integer of 64 bits.
abbrev pub in_range : Bool → ℕ → Option ℤ
in_range true n = if leb n (2 ^ 63) then some (negated n) else none
in_range false n = if ltb n (2 ^ 63) then some (pos n) else none

abbrev pub checked : Bool → Option (List ℕ) → Option ℤ
checked negative none = none
checked negative (some ds) = in_range negative (value_from 10 0 ds)

pub unsigned : Bool → Bytes → Option ℤ
unfolding digits_of
unsigned negative [] = none
unsigned negative (c ∷ s) = checked negative (digits_of (c ∷ s))

-- `Atoi`
unfoldable pub atoi : Bytes → Option ℤ
unfolding unsigned
atoi [] = none
atoi (c ∷ s) =
    if c == b'-'
    then unsigned true s
    else if c == b'+'
    then unsigned false s
    else unsigned false (c ∷ s)
