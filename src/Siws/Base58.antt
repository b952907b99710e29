-- ===== src/Siws/Base58.antt =====
-- siws/base58.go. A byte above 127 is never in the alphabet, so that the loops over runes read bytes
-- here: the first byte of any longer rune is refused where the rune is.
pub mod Letters
pub mod RoundTrip
use mathlib.Core.List.{reverse}
use siwx_go.Base.{
  ℕ, suc, ◌+◌, ◌*◌, ◌==◌, List, [], ◌∷◌, ◌++◌, map, ltb, length, replicate, Bytes, codes, Option,
  none, some, if◌then◌else◌, ◌≡◌, refl,
}
use siwx_go.Go.BigInt.{set_bytes, low_digits, to_bytes}
use siwx_go.Siws.Errors.{Result, ok, err, panicked, base58_too_long, base58_bad_character, ◌>>=◌}

abbrev pub alphabet : Bytes
alphabet = codes "123456789ABCDEFGHJKLMNPQRSTUVWXYZabcdefghijkmnopqrstuvwxyz"

abbrev pub max_base58_len : ℕ
max_base58_len = 128

-- `alphabet[i]`.
nth : Bytes → ℕ → ℕ
nth [] i = 0
nth (c ∷ s) i = elim i [ ℕ.zero ↦ c | suc j ↦ nth s j ]

-- What `init` writes for a byte below 128; `none` is the -1 that it leaves elsewhere.
pub index_from : ℕ → Bytes → ℕ → Option ℕ
index_from i [] c = none
index_from i (x ∷ s) c = if c == x then some i else index_from (i + 1) s c

abbrev table_size : ℕ
table_size = 128

-- `alphabetIdx[r]`: an index beyond the table panics.
unfoldable pub table_entry : ℕ → Result (Option ℕ)
unfolding index_from
table_entry r = if ltb r table_size then ok (index_from 0 alphabet r) else panicked

-- `r > 127 || alphabetIdx[r] < 0`, and the digit where that is false.
unfoldable pub digit_of : ℕ → Result ℕ
unfolding table_entry
digit_of r =
    if ltb 127 r
    then err base58_bad_character
    else (table_entry r >>= λ entry. elim entry [ none ↦ err base58_bad_character | some d ↦ ok d ])

pub letter_of : ℕ → ℕ
unfolding nth
letter_of d = nth alphabet d

-- The loop that reads the digits.
unfoldable pub accumulate : ℕ → Bytes → Result ℕ
unfolding digit_of
accumulate n [] = ok n
accumulate n (r ∷ s) = elim (digit_of r) [
  | ok d ↦ accumulate (n * 58 + d) s
  | err e ↦ err e
  | panicked ↦ panicked
]

-- The loops that count what stands in front: '1's of a text, zeros of a key.
pub leading : ℕ → Bytes → ℕ
leading v [] = 0
leading v (c ∷ s) = if c == v then suc (leading v s) else 0

unfoldable pub decode_base58 : Bytes → Result Bytes
unfolding accumulate leading to_bytes
decode_base58 s = if ltb max_base58_len (length s) then err base58_too_long else do
  n ← accumulate 0 s
  let decoded = to_bytes n
  let zeros = leading b'1' s
  if ltb 0 zeros then ok (replicate zeros 0 ++ decoded) else ok decoded

unfoldable pub encode_base58 : Bytes → Bytes
unfolding letter_of leading low_digits
encode_base58 b =
    let n = set_bytes b in reverse (map letter_of (low_digits 58 n) ++ replicate (leading 0 b) b'1')
