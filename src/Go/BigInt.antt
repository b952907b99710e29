-- ===== src/Go/BigInt.antt =====
-- `math/big`: a non-negative `Int` is a natural number. `SetBytes` reads big-endian digits in base
-- 256 and `Bytes` writes them with no leading zero; the base-58 code does the same in base 58, so
-- both stand here for every base.
pub mod Laws
use mathlib.Core.List.{foldl, reverse}
use siwx_go.Base.{ℕ, zero, suc, ◌+◌, ◌*◌, ◌/◌, ◌%◌, ◌==◌, Bool, true, false, List, [], ◌∷◌, Bytes}

-- The number that the digits spell behind `n`, most significant first.
abbrev pub value_from : ℕ → ℕ → List ℕ → ℕ
value_from base = foldl (λ n d. n * base + d)

-- `SetBytes`.
abbrev pub set_bytes : Bytes → ℕ
set_bytes = value_from 256 0

-- The loop `for n > 0 { n, mod = n / base, n % base; append mod }`: least significant first. The
-- first argument bounds the rounds; `n` rounds are enough (`low_digits_step`).
pub low_digits_on : ℕ → ℕ → ℕ → List ℕ
low_digits_on zero base n = []
low_digits_on (suc f) base n = elim (n == 0) [
  | true ↦ []
  | false ↦ n % base ∷ low_digits_on f base (n / base)
]

unfoldable pub low_digits : ℕ → ℕ → List ℕ
unfolding low_digits_on
low_digits base n = low_digits_on n base n

-- `Bytes`.
unfoldable pub to_bytes : ℕ → Bytes
unfolding low_digits
to_bytes n = reverse (low_digits 256 n)
