-- ===== src/Go/Base64.antt =====
-- Package `encoding/base64`: `StdEncoding` and `RawURLEncoding`.
pub mod Laws
use siwx_go.Base.{
  ℕ, ◌+◌, ◌-◌, ◌*◌, ◌/◌, ◌%◌, List, [], ◌∷◌, ◌++◌, Bytes, Bool, true, false, not, ◌&&◌, ◌||◌, ◌==◌,
  Option, none, some, if◌then◌else◌, leb,
}

-- The digit of a letter: `c62` and `c63` are the last two letters of the alphabet.
unfoldable pub digit : ℕ → ℕ → ℕ → Option ℕ
digit c62 c63 c =
    if leb b'A' c && leb c b'Z'
    then some (c - b'A')
    else if leb b'a' c && leb c b'z'
    then some (c - b'a' + 26)
    else if leb b'0' c && leb c b'9'
    then some (c - b'0' + 52)
    else if c == c62
    then some 62
    else if c == c63
    then some 63
    else none

-- A decoder passes over line ends wherever they stand.
unfoldable pub without_newlines : Bytes → Bytes
without_newlines [] = []
without_newlines (c ∷ s) =
    let rest = without_newlines s in if c == b'\n' || c == b'\r' then rest else c ∷ rest

unfoldable pub four : Option ℕ → Option ℕ → Option ℕ → Option ℕ → Option Bytes → Option Bytes
four (some a) (some b) (some c) (some d) (some rest) =
    some ((a * 4 + b / 16) ∷ (b % 16 * 16 + c / 4) ∷ (c % 4 * 64 + d) ∷ rest)
four _ _ _ _ _ = none

unfoldable pub three : Option ℕ → Option ℕ → Option ℕ → Option Bytes
three (some a) (some b) (some c) = some ((a * 4 + b / 16) ∷ (b % 16 * 16 + c / 4) ∷ [])
three _ _ _ = none

unfoldable pub two : Option ℕ → Option ℕ → Option Bytes
two (some a) (some b) = some ((a * 4 + b / 16) ∷ [])
two _ _ = none

module _ (c62 c63 : ℕ) where
  -- The last group of four letters, with padding or without.
  unfoldable pub last_padded : ℕ → ℕ → ℕ → ℕ → Option Bytes
  unfolding digit four three two
  last_padded a b c d =
      if c == b'=' && d == b'='
      then two (digit c62 c63 a) (digit c62 c63 b)
      else if d == b'='
      then three (digit c62 c63 a) (digit c62 c63 b) (digit c62 c63 c)
      else four (digit c62 c63 a) (digit c62 c63 b) (digit c62 c63 c) (digit c62 c63 d) (some [])

  -- `DecodeString` with padding, without line ends.
  unfoldable pub decode_padded : Bytes → Option Bytes
  unfolding digit four last_padded
  decode_padded [] = some []
  decode_padded (a ∷ b ∷ c ∷ d ∷ []) = last_padded a b c d
  decode_padded (a ∷ b ∷ c ∷ d ∷ s) =
      let rest = decode_padded s in
      four (digit c62 c63 a) (digit c62 c63 b) (digit c62 c63 c) (digit c62 c63 d) rest
  decode_padded _ = none

  -- `DecodeString` without padding.
  unfoldable pub decode_raw : Bytes → Option Bytes
  unfolding digit four three two
  decode_raw [] = some []
  decode_raw (a ∷ []) = none
  decode_raw (a ∷ b ∷ []) = two (digit c62 c63 a) (digit c62 c63 b)
  decode_raw (a ∷ b ∷ c ∷ []) = three (digit c62 c63 a) (digit c62 c63 b) (digit c62 c63 c)
  decode_raw (a ∷ b ∷ c ∷ d ∷ s) =
      let rest = decode_raw s in
      four (digit c62 c63 a) (digit c62 c63 b) (digit c62 c63 c) (digit c62 c63 d) rest

-- `StdEncoding.DecodeString`
unfoldable pub std_decode : Bytes → Option Bytes
unfolding decode_padded without_newlines
std_decode s = decode_padded b'+' b'/' (without_newlines s)

-- `RawURLEncoding.DecodeString`
unfoldable pub raw_url_decode : Bytes → Option Bytes
unfolding decode_raw without_newlines
raw_url_decode s = decode_raw b'-' b'_' (without_newlines s)

-- A letter of the URL alphabet.
unfoldable pub url_letter : ℕ → ℕ
url_letter n =
    if leb n 25
    then b'A' + n
    else if leb n 51
    then b'a' + (n - 26)
    else if leb n 61
    then b'0' + (n - 52)
    else if n == 62
    then b'-'
    else b'_'

-- `RawURLEncoding.EncodeToString`
unfoldable pub raw_url_encode : Bytes → Bytes
unfolding url_letter
raw_url_encode [] = []
raw_url_encode (a ∷ []) = url_letter (a / 4) ∷ url_letter (a % 4 * 16) ∷ []
raw_url_encode (a ∷ b ∷ []) =
    url_letter (a / 4) ∷ url_letter (a % 4 * 16 + b / 16) ∷ url_letter (b % 16 * 4) ∷ []
raw_url_encode (a ∷ b ∷ c ∷ s) =
    url_letter (a / 4)
    ∷ url_letter (a % 4 * 16 + b / 16)
    ∷ url_letter (b % 16 * 4 + c / 64)
    ∷ url_letter (c % 64)
    ∷ raw_url_encode s
