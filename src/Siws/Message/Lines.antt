-- ===== src/Siws/Message/Lines.antt =====
-- siws/message.go: the lines that `String` writes.
use siwx_go.Base.{ℕ, [], ◌∷◌, ◌++◌, List, map, Bytes, Option, none, some, equal, ◌≡◌, refl, ap}
use siwx_go.Go.Strings.Lines.{unlines}
use siwx_go.Go.Time.{TimeLib}
use siwx_go.Siws.Errors.{Field}
use siwx_go.Siws.Message.{
  Message, label, header_suffix, to_string, resource_lines, resources_text, request_text,
  statement_text, time_text,
}
use siwx_go.Siws.Trailer.{dash}
use siwx_go.Siws.Trailer.Lines.{time_lines, request_lines, resource_part, trailer_lines}

abbrev pub statement_lines : Bytes → List Bytes
statement_lines [] = []
statement_lines (c ∷ s) = [] ∷ (c ∷ s) ∷ []

module _ (lib : TimeLib) (m : Message) where
  abbrev pub field_lines : List Bytes
  field_lines =
      []
      ∷ (label Field.uri ++ m.uri)
      ∷ (label Field.version ++ m.version)
      ∷ (label Field.chain_id ++ m.chain_id)
      ∷ (label Field.nonce ++ m.nonce)
      ∷ (label Field.issued_at ++ lib.format m.issued_at)
      ∷ trailer_lines lib m

  abbrev pub tail_lines : List Bytes
  tail_lines = m.address ∷ (statement_lines m.statement ++ field_lines)

unlines-resources : (rs : List Bytes) → unlines (map (λ r. dash ++ r) rs) ≡ resource_lines rs
unfolding unlines resource_lines
unlines-resources [] = refl
unlines-resources (r ∷ rs) = ap (λ t. (dash ++ r) ++ b'\n' ∷ t) (unlines-resources rs)

unlines-resource_part : (rs : List Bytes) → unlines (resource_part rs) ≡ resources_text rs
unfolding unlines resources_text
unlines-resource_part [] = refl
unlines-resource_part (r ∷ rs) =
    ap (λ t. label Field.resources ++ b'\n' ∷ t) (unlines-resources (r ∷ rs))

unlines-request_lines :
    (id : Bytes) (ls : List Bytes) → unlines (request_lines id ++ ls) ≡ request_text id (unlines ls)
unfolding unlines request_text equal
unlines-request_lines [] ls = refl
unlines-request_lines (c ∷ id) ls = refl

unlines-statement_lines :
    (s : Bytes) (ls : List Bytes)
    → unlines (statement_lines s ++ ls) ≡ statement_text s (unlines ls)
unfolding unlines statement_text equal
unlines-statement_lines [] ls = refl
unlines-statement_lines (c ∷ s) ls = refl

unlines-time_lines :
    (lib : TimeLib) (f : Field) (o : Option ℕ) (ls : List Bytes)
    → unlines (time_lines lib f o ++ ls) ≡ time_text lib f o (unlines ls)
unfolding unlines time_text
unlines-time_lines lib f none ls = refl
unlines-time_lines lib f (some t) ls = refl

-- `String` writes these lines and no other text.
pub to_string-unlines :
    (lib : TimeLib) (m : Message)
    → to_string lib m ≡ unlines ((m.domain ++ header_suffix) ∷ tail_lines lib m)
unfolding unlines to_string
to_string-unlines lib m =
    simp (unlines-statement_lines, unlines-time_lines, unlines-request_lines, unlines-resource_part)
