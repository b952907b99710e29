-- ===== src/Siws/Parse.antt =====
-- siws/parse.go: `ParseMessage`.
pub mod RoundTrip
use siwx_go.Base.{
  ℕ, ◌*◌, ◌^◌, [], List, Bytes, codes, none, if◌then◌else◌, equal, not, false, ltb, length,
}
use siwx_go.Go.Strings.{contains_byte, trim_right, split}
use siwx_go.Go.Time.{TimeLib}
use siwx_go.Siws.Errors.{
  Field, Result, ok, ◌>>=◌, ◌>>◌, too_large, crlf, too_few_lines, no_blank_after_address, empty_uri,
  bad_version, bad_nonce,
}
use siwx_go.Siws.Fields.{
  guard, expect_field, valid_nonce, read_domain, read_address, read_blank, read_statement,
  read_chain_id,
}
use siwx_go.Siws.Message.{Message}
use siwx_go.Siws.Trailer.{Trailer, parse_issued_at, run_trailer}

abbrev pub max_message_bytes : ℕ
max_message_bytes = 8 * 2 ^ 10

module _ (lib : TimeLib) where
  -- What stands behind the split into lines.
  unfoldable pub parse_lines : List Bytes → Result Message
  unfolding guard
  parse_lines lines = do
    (domain, lines) ← read_domain lines
    (address, lines) ← read_address lines
    (_, lines) ← read_blank no_blank_after_address lines
    (statement, lines) ← read_statement lines
    (uri, lines) ← expect_field Field.uri lines
    guard (not (equal uri [])) empty_uri
    (version, lines) ← expect_field Field.version lines
    guard (equal version (codes "1")) bad_version
    (chain_id, lines) ← read_chain_id lines
    (nonce, lines) ← expect_field Field.nonce lines
    guard (valid_nonce nonce) bad_nonce
    (stamp, lines) ← expect_field Field.issued_at lines
    issued_at ← parse_issued_at lib stamp
    let m : Message = record {
      domain = domain;
      address = address;
      statement = statement;
      uri = uri;
      version = version;
      chain_id = chain_id;
      nonce = nonce;
      issued_at = issued_at;
      expiration_time = none;
      not_before = none;
      request_id = [];
      resources = [];
    }
    s ← run_trailer lib (record { stage = 0; in_resources = false; message = m }) lines
    ok s.message

  -- `ParseMessage`
  unfoldable pub parse_message : Bytes → Result Message
  unfolding guard
  parse_message b = do
    guard (not (ltb max_message_bytes (length b))) too_large
    guard (not (contains_byte b b'\r')) crlf
    let lines = split (trim_right b b'\n') b'\n'
    guard (not (ltb (length lines) 6)) too_few_lines
    parse_lines lines
