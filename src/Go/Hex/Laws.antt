-- ===== src/Go/Hex/Laws.antt =====
-- Hexadecimal text, written and read back.
use siwx_go.Base.{ℕ, ◌+◌, ◌*◌, ◌/◌, ◌%◌, ◌<◌, [], ◌∷◌, All, Bytes, some, length, ◌≡◌, refl, arith}
use siwx_go.Go.Hex.{hex_digit, hex_encode, from_hex, hex_pair, hex_decode}

from_hex-hex_digit : (n : ℕ) → n < 16 → from_hex (hex_digit n) ≡ some n
unfolding from_hex
from_hex-hex_digit n h = ground arith

pub hex_decode-hex_encode : (b : Bytes) → All (λ c. c < 256) b → hex_decode (hex_encode b) ≡ some b
unfolding hex_decode hex_encode hex_pair
hex_decode-hex_encode [] h = refl
hex_decode-hex_encode (c ∷ b) (hc, hb) =
    let high : c / 16 < 16 = omega arith in
    let low : c % 16 < 16 = omega arith in
    let whole : c / 16 * 16 + c % 16 ≡ c = omega arith in
    rw
      (
        from_hex-hex_digit (c / 16) high,
        from_hex-hex_digit (c % 16) low,
        hex_decode-hex_encode b hb,
        hex_pair,
        whole,
      )
      refl

pub length-hex_encode : (b : Bytes) → length (hex_encode b) ≡ 2 * length b
unfolding hex_encode
length-hex_encode [] = omega arith
length-hex_encode (c ∷ b) = omega (arith, length-hex_encode b)
