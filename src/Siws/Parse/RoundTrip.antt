-- ===== src/Siws/Parse/RoundTrip.antt =====
-- siws/parse.go on what `String` of siws/message.go writes.
use mathlib.Core.List.{cons-ne-nil}
use siwx_go.Base.{
  ◌≤◌, [], ◌∷◌, ◌++◌, List, Bytes, codes, equal, equal_iff, true, false, length, ltb, ◌≡◌, arith,
  All, All-append, length-append, le→ltb-false,
}
use siwx_go.Go.Strings.{contains_byte}
use siwx_go.Go.Strings.Laws.{Lacks, OneLine, contains_of_Lacks}
use siwx_go.Go.Strings.Lines.{unlines, split-unlines}
use siwx_go.Go.Time.{TimeLib, TimeLaws}
use siwx_go.Siws.Errors.{Field, Reason, ok}
use siwx_go.Siws.Fields.Laws.{
  equal-false, expect_field-label, read_domain_line, read_address_line, read_blank_line,
  read_statement_line, read_statement_none, read_chain_id_line, is_field_prefix-uri,
}
use siwx_go.Siws.Fields.{read_statement, read_blank, is_field_prefix}
use siwx_go.Siws.Message.{Message, header_suffix, label, to_string}
use siwx_go.Siws.Message.Lines.{statement_lines, field_lines, tail_lines, to_string-unlines}
use siwx_go.Siws.Message.WellFormed.{
  IsWellFormed, HasExactTimes, OneLine-header, OneLine-tail_lines, last_line-tail_lines,
}
use siwx_go.Siws.Parse.{max_message_bytes, parse_lines, parse_message}
use siwx_go.Siws.Trailer.Laws.{parse_issued_at-format, run_trailer_lines}

Lacks-unlines : (ls : List Bytes) → All OneLine ls → Lacks b'\r' (unlines ls)
unfolding unlines
Lacks-unlines [] h = tt
Lacks-unlines (l ∷ ls) (hl, hls) =
    All-append _ l (b'\n' ∷ unlines ls) hl.1 ((λ e. omega arith), Lacks-unlines ls hls)

All-newline : (ls : List Bytes) → All OneLine ls → All (Lacks b'\n') ls
All-newline [] h = tt
All-newline (l ∷ ls) (hl, hls) = (hl.0, All-newline ls hls)

-- What is left behind the first empty line.
abbrev after_blank : Bytes → List Bytes → List Bytes
after_blank [] rest = rest
after_blank (c ∷ s) rest = (c ∷ s) ∷ [] ∷ rest

read_blank_statement :
    (e : Reason) (s : Bytes) (rest : List Bytes)
    → read_blank e (statement_lines s ++ [] ∷ rest) ≡ ok (tt, after_blank s rest)
read_blank_statement e [] rest = read_blank_line rest e
read_blank_statement e (c ∷ s) rest = read_blank_line ((c ∷ s) ∷ [] ∷ rest) e

read_statement_lines :
    (s v : Bytes) (ls : List Bytes)
    → is_field_prefix s ≡ false
    → read_statement (after_blank s ((label Field.uri ++ v) ∷ ls))
      ≡ ok (s, (label Field.uri ++ v) ∷ ls)
read_statement_lines [] v ls h =
    read_statement_none ls (label Field.uri ++ v) (is_field_prefix-uri v)
read_statement_lines (c ∷ s) v ls h =
    read_statement_line ((label Field.uri ++ v) ∷ ls) (c ∷ s) (cons-ne-nil c s) h

module _ (lib : TimeLib) (laws : TimeLaws lib) (m : Message) (w : IsWellFormed m)
    (x : HasExactTimes lib m) where
  parse_lines-tail : parse_lines lib ((m.domain ++ header_suffix) ∷ tail_lines lib m) ≡ ok m
  unfolding parse_lines
  parse_lines-tail =
      let version : equal m.version (codes "1") ≡ true = (equal_iff _ _).1 w.version_is in
      let uri : equal m.uri [] ≡ false = equal-false m.uri [] w.uri_ne_nil in
      rw
        (
          read_domain_line (tail_lines lib m) m.domain w.domain_ne_nil,
          read_address_line (statement_lines m.statement ++ field_lines lib m) m.address w.key
              w.address_ne_nil w.key_decodes w.key_size,
          read_blank_statement,
          read_statement_lines m.statement m.uri _ w.statement_plain,
          expect_field-label,
          uri,
          expect_field-label,
          version,
          read_chain_id_line _ m.chain_id w.chain_id_ne_nil,
          expect_field-label,
          w.nonce_valid,
          expect_field-label,
          parse_issued_at-format lib laws m.issued_at x.issued_at_exact,
        )
        (run_trailer_lines lib laws m x.expiration_exact x.not_before_exact)

  enough_lines : ltb (length ((m.domain ++ header_suffix) ∷ tail_lines lib m)) 6 ≡ false
  enough_lines =
      le→ltb-false _ _
        (omega (arith, length-append (statement_lines m.statement) (field_lines lib m)))

  -- Parsing what `String` writes gives the message back: well-formed, with timestamps that the
  -- canonical layout writes without loss, and within the size that the parser takes.
  pub parse-to_string :
      length (to_string lib m) ≤ max_message_bytes → parse_message lib (to_string lib m) ≡ ok m
  unfolding parse_message
  parse-to_string fits =
      let no_return : contains_byte (to_string lib m) b'\r' ≡ false =
        contains_of_Lacks (to_string lib m) b'\r' (
          rw to_string-unlines (
            Lacks-unlines ((m.domain ++ header_suffix) ∷ tail_lines lib m)
              (OneLine-header lib laws m w x, OneLine-tail_lines lib laws m w x))) in
      let size : ltb max_message_bytes (length (to_string lib m)) ≡ false = le→ltb-false _ _ fits in
      rw
        (
          size,
          no_return,
          to_string-unlines lib m,
          split-unlines (m.domain ++ header_suffix) (tail_lines lib m)
              (OneLine-header lib laws m w x).0
              (All-newline (tail_lines lib m) (OneLine-tail_lines lib laws m w x))
              (last_line-tail_lines lib (m.domain ++ header_suffix) m),
          enough_lines,
        )
        parse_lines-tail
