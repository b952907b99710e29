-- ===== src/Siws/Fields.antt =====
-- siws/parse.go: the pieces in front of the optional fields, with `expectField`, `isFieldPrefix` and
-- `validNonce`. `lines[pos:]` is the list of the lines that are left; `lines[pos]` panics where none
-- is left, and so does `next_line`.
pub mod Laws
pub mod Read
use siwx_go.Base.{
  ℕ, ◌+◌, ◌<◌, ◌==◌, List, [], ◌∷◌, ◌++◌, Bytes, codes, Option, none, some, if◌then◌else◌, equal,
  Bool, true, false, not, ◌&&◌, ◌||◌, ltb, leb, length,
}
use siwx_go.Go.Strings.{
  has_prefix, trim_prefix, has_suffix, trim_suffix, contains_byte, trim_right, split, all_bytes,
}
use siwx_go.Go.Time.{TimeLib, Layout, rfc3339, rfc3339_nano, millis_zone, millis_z, fraction_z}
use siwx_go.Siws.Base58.{decode_base58}
use siwx_go.Siws.Errors.{
  Field, Reason, Result, ok, err, panicked, ◌>>=◌, ◌>>◌, too_large, crlf, too_few_lines, bad_header,
  missing_domain, missing_address, bad_address_encoding, bad_address_size, no_blank_after_address,
  no_blank_after_statement, empty_uri, bad_version, bad_nonce, unexpected_line, missing_field,
  expected_field, bad_timestamp, out_of_order,
}
use siwx_go.Siws.Message.{Message, header_suffix, mainnet, label}

-- A parser of some lines: its value, and the lines that it leaves.
abbrev pub Parser {ℓ} : Type ℓ → Type ℓ
Parser A = List Bytes → Result (A × List Bytes)

unfoldable pub guard : Bool → Reason → Result (Unit {0})
guard true e = ok tt
guard false e = err e

-- `lines[pos]; pos++`
unfoldable pub next_line : Parser Bytes
next_line [] = panicked
next_line (l ∷ ls) = ok (l, ls)

-- `expectField`
unfoldable pub expect_field : Field → Parser Bytes
expect_field f [] = err (missing_field f)
expect_field f (l ∷ ls) =
    if has_prefix l (label f) then ok (trim_prefix l (label f), ls) else err (expected_field f)

-- `isFieldPrefix`: the loop over the labels.
unfoldable pub starts_with_any : List Field → Bytes → Bool
starts_with_any [] s = false
starts_with_any (f ∷ fs) s = has_prefix s (label f) || starts_with_any fs s

abbrev fields : List Field
fields =
    Field.uri ∷ Field.version ∷ Field.chain_id ∷ Field.nonce ∷ Field.issued_at
    ∷ Field.expiration_time ∷ Field.not_before ∷ Field.request_id ∷ Field.resources ∷ []

unfoldable pub is_field_prefix : Bytes → Bool
unfolding starts_with_any
is_field_prefix s = starts_with_any fields s

unfoldable pub is_alphanumeric : ℕ → Bool
is_alphanumeric r =
    (leb b'a' r && leb r b'z') || (leb b'A' r && leb r b'Z') || (leb b'0' r && leb r b'9')

-- `validNonce`. A byte above 127 is refused where the rune is.
unfoldable pub valid_nonce : Bytes → Bool
unfolding is_alphanumeric
valid_nonce s = if ltb (length s) 8 then false else all_bytes is_alphanumeric s

-- The first line.
unfoldable pub read_domain : Parser Bytes
unfolding next_line guard
read_domain ls = do
  (l, rest) ← next_line ls
  guard (has_suffix l header_suffix) bad_header
  let domain = trim_suffix l header_suffix
  guard (not (equal domain [])) missing_domain
  ok (domain, rest)

-- An address decodes to 32 bytes.
unfoldable pub check_address : Bytes → Result (Unit {0})
unfolding guard
check_address addr = do
  guard (not (equal addr [])) missing_address
  key ← elim (decode_base58 addr) [
    | ok b ↦ ok b
    | err _ ↦ err bad_address_encoding
    | panicked ↦ panicked
  ]
  guard (length key == 32) bad_address_size

-- The second line.
unfoldable pub read_address : Parser Bytes
unfolding next_line check_address
read_address ls = do (addr, rest) ← next_line ls; check_address addr; ok (addr, rest)

-- A line that has to be empty.
unfoldable pub read_blank : Reason → Parser (Unit {0})
unfolding next_line guard
read_blank e ls = do (l, rest) ← next_line ls; guard (equal l []) e; ok (tt, rest)

-- The optional statement and the empty line behind it.
unfoldable pub read_statement : Parser Bytes
read_statement [] = ok ([], [])
read_statement (l ∷ ls) =
    if not (equal l []) && not (is_field_prefix l)
    then elim ls [
      | [] ↦ err no_blank_after_statement
      | b ∷ rest ↦ if equal b [] then ok (l, rest) else err no_blank_after_statement
    ]
    else ok ([], l ∷ ls)

given_chain_id : List Bytes → Bytes × List Bytes
given_chain_id [] = ([], [])
given_chain_id (l ∷ ls) =
    if has_prefix l (label Field.chain_id)
    then (trim_prefix l (label Field.chain_id), ls)
    else ([], l ∷ ls)

-- The optional chain; absent or empty, it is "mainnet".
unfoldable pub read_chain_id : Parser Bytes
unfolding given_chain_id
read_chain_id ls =
    let (read, rest) = given_chain_id ls in ok (if equal read [] then mainnet else read, rest)
