-- ===== src/TestVectors/Extract.antt =====
-- internal/testvectors/load.go against siws/parse.go: what `ExtractDomainNonce` finds in a message.
use siwx_go.Base.{
  [], ◌∷◌, ◌++◌, List, map, All, All-split, Bytes, true, false, Option, none, some, not, length,
  ltb, drop, ◌≡◌, refl, sym, ap, ◌∙◌,
}
use siwx_go.Go.Strings.{
  has_suffix, has_prefix, trim_suffix, trim_prefix, split, trim_right, contains_byte,
}
use siwx_go.Go.Strings.Laws.{
  has_prefix-append, trim_prefix-append, has_suffix-append, trim_suffix-append,
}
use siwx_go.Go.Strings.Trimmed.{Blank, Trimmed-split}
use siwx_go.Go.Time.{TimeLib}
use siwx_go.Siws.Errors.{Field, ok, bind-eq-ok, too_large, too_few_lines, crlf}
use siwx_go.Siws.Fields.{guard}
use siwx_go.Siws.Grammar.{
  ResourceBlock, no_resources, resource_list, RequestBlock, no_request, request, StartBlock,
  no_start, start, OptionalFields, no_expiration, expiration, statement_block, chain_block,
  IsMessageText,
}
use siwx_go.Siws.Grammar.Sound.{parse_lines_sound}
use siwx_go.Siws.Message.{Message, label}
use siwx_go.Siws.Parse.{max_message_bytes, parse_lines, parse_message}
use siwx_go.Siws.Trailer.{dash}
use siwx_go.TestVectors.{suffix, nonce_label, extract_line, extract_lines, extract_domain_nonce}

-- A line that names no domain, and one that names no nonce.
abbrev pub NoHeader : Bytes → Type 0
NoHeader l = has_suffix l suffix ≡ false

abbrev NoNonce : Bytes → Type 0
NoNonce l = has_prefix l nonce_label ≡ false

keeps_domain :
    (found : Bytes × Bytes) (ls : List Bytes)
    → All NoHeader ls
    → (extract_lines found ls).0 ≡ found.0
unfolding extract_lines extract_line
keeps_domain found [] h = refl
keeps_domain found (l ∷ ls) (hl, hs) = keeps_domain (extract_line found l) ls hs ∙ rw hl refl

keeps_nonce :
    (found : Bytes × Bytes) (ls : List Bytes)
    → All NoNonce ls
    → (extract_lines found ls).1 ≡ found.1
unfolding extract_lines extract_line
keeps_nonce found [] h = refl
keeps_nonce found (l ∷ ls) (hl, hs) = keeps_nonce (extract_line found l) ls hs ∙ rw hl refl

-- The optional fields hold no line of a nonce, and leave the domain and the nonce of the message.
record Optional (m : Message) (ls : List Bytes) (m' : Message) : Type 0 where
  no_nonce : All NoNonce ls
  same_domain : m'.domain ≡ m.domain
  same_nonce : m'.nonce ≡ m.nonce

NoNonce-label :
    (v : Bytes)
    → NoNonce (label Field.issued_at ++ v)
      × NoNonce (label Field.expiration_time ++ v)
      × NoNonce (label Field.not_before ++ v)
      × NoNonce (label Field.request_id ++ v)
      × NoNonce (dash ++ v)
unfolding label has_prefix
NoNonce-label v = (refl, refl, refl, refl, refl)

NoNonce-resources : (rs : List Bytes) → All NoNonce (map (λ r. dash ++ r) rs)
NoNonce-resources [] = tt
NoNonce-resources (r ∷ rs) = ((NoNonce-label r).4, NoNonce-resources rs)

Optional-resources : {m m' : Message} {ls : List Bytes} → ResourceBlock m ls m' → Optional m ls m'
unfolding label has_prefix
Optional-resources (no_resources e f) = record {
  no_nonce = rw e tt;
  same_domain = ap (λ (x : Message). x.domain) f;
  same_nonce = ap (λ (x : Message). x.nonce) f;
}
Optional-resources (resource_list rs e f) = record {
  no_nonce = rw e (refl, NoNonce-resources rs);
  same_domain = ap (λ (x : Message). x.domain) f;
  same_nonce = ap (λ (x : Message). x.nonce) f;
}

-- A line in front of what follows.
Optional-line :
    {m mid m' : Message} {ls : List Bytes} (l : Bytes) (rest : List Bytes)
    → NoNonce l
    → ls ≡ l ∷ rest
    → mid.domain ≡ m.domain
    → mid.nonce ≡ m.nonce
    → Optional mid rest m'
    → Optional m ls m'
Optional-line l rest h e d n o = record {
  no_nonce = rw e (h, o.no_nonce);
  same_domain = o.same_domain ∙ d;
  same_nonce = o.same_nonce ∙ n;
}

Optional-request : {m m' : Message} {ls : List Bytes} → RequestBlock m ls m' → Optional m ls m'
Optional-request (no_request r) = Optional-resources r
Optional-request (request id rest e r) =
    Optional-line (label Field.request_id ++ id) rest (NoNonce-label id).3 e refl refl
      (Optional-resources r)

module _ (lib : TimeLib) where
  Optional-start : {m m' : Message} {ls : List Bytes} → StartBlock lib m ls m' → Optional m ls m'
  Optional-start (no_start r) = Optional-request r
  Optional-start (start v t rest e _ r) =
      Optional-line (label Field.not_before ++ v) rest (NoNonce-label v).2 e refl refl
        (Optional-request r)

  Optional-fields :
      {m m' : Message} {ls : List Bytes} → OptionalFields lib m ls m' → Optional m ls m'
  Optional-fields (no_expiration r) = Optional-start r
  Optional-fields (expiration v t rest e _ r) =
      Optional-line (label Field.expiration_time ++ v) rest (NoNonce-label v).1 e refl refl
        (Optional-start r)

-- Whatever has been found before them, these lines end with this nonce.
abbrev EndsWith : Bytes → List Bytes → Type 0
EndsWith n ls = (found : Bytes × Bytes) → (extract_lines found ls).1 ≡ n

EndsWith-cons : (n l : Bytes) (ls : List Bytes) → EndsWith n ls → EndsWith n (l ∷ ls)
unfolding extract_lines
EndsWith-cons n l ls h found = h (extract_line found l)

EndsWith-statement :
    (n s : Bytes) (ls : List Bytes) → EndsWith n ls → EndsWith n (statement_block s ls)
EndsWith-statement n [] ls h = h
EndsWith-statement n (c ∷ s) ls h = EndsWith-cons n (c ∷ s) ([] ∷ ls) (EndsWith-cons n [] ls h)

EndsWith-chain :
    (n : Bytes) (o : Option Bytes) (ls : List Bytes) → EndsWith n ls → EndsWith n (chain_block o ls)
EndsWith-chain n none ls h = h
EndsWith-chain n (some c) ls h = EndsWith-cons n _ ls h

taken_nonce :
    (found : Bytes × Bytes) (l : Bytes)
    → has_prefix l nonce_label ≡ true
    → (extract_line found l).1 ≡ trim_prefix l nonce_label
unfolding extract_line
taken_nonce found l h = rw h refl

taken_domain :
    (found : Bytes × Bytes) (l : Bytes)
    → has_suffix l suffix ≡ true
    → (extract_line found l).0 ≡ trim_suffix l suffix
unfolding extract_line
taken_domain found l h = rw h refl

EndsWith-nonce :
    (n : Bytes) (ls : List Bytes) → All NoNonce ls → EndsWith n ((label Field.nonce ++ n) ∷ ls)
unfolding extract_lines label
EndsWith-nonce n ls h found =
    keeps_nonce (extract_line found (nonce_label ++ n)) ls h
    ∙ taken_nonce found (nonce_label ++ n) (has_prefix-append nonce_label n)
    ∙ trim_prefix-append nonce_label n

extract-header :
    (d n : Bytes) (ls : List Bytes)
    → All NoHeader ls
    → EndsWith n ls
    → extract_lines ([], []) ((d ++ suffix) ∷ ls) ≡ (d, n)
unfolding extract_lines
extract-header d n ls quiet ends =
    let domain_is =
      keeps_domain (extract_line ([], []) (d ++ suffix)) ls quiet
      ∙ taken_domain ([], []) (d ++ suffix) (has_suffix-append d suffix)
      ∙ trim_suffix-append d suffix in
    λ i. (domain_is i, ends (extract_line ([], []) (d ++ suffix)) i)

extract-text :
    (lib : TimeLib) (lines : List Bytes) (m : Message)
    → IsMessageText lib lines m
    → All NoHeader (drop 1 lines)
    → extract_lines ([], []) lines ≡ (m.domain, m.nonce)
extract-text lib lines m w quiet =
    let o = Optional-fields lib w.optional in
    let r = w.required in
    let ends = EndsWith-cons r.nonce r.address _ (
      EndsWith-cons r.nonce [] _ (
        EndsWith-statement r.nonce r.statement _ (
          EndsWith-cons r.nonce _ _ (
            EndsWith-cons r.nonce _ _ (
              EndsWith-chain r.nonce w.chain_text _ (
                EndsWith-nonce r.nonce ((label Field.issued_at ++ w.stamp) ∷ w.rest)
                  ((NoNonce-label w.stamp).0, o.no_nonce))))))) in
    ap (extract_lines ([], [])) w.lines_are
    ∙ extract-header r.domain r.nonce _ (rw w.lines_are at quiet) ends
    ∙ (λ i. (sym o.same_domain i, sym o.same_nonce i))

extract_lines-append :
    (found : Bytes × Bytes) (xs ys : List Bytes)
    → extract_lines found (xs ++ ys) ≡ extract_lines (extract_lines found xs) ys
unfolding extract_lines
extract_lines-append found [] ys = refl
extract_lines-append found (x ∷ xs) ys = extract_lines-append (extract_line found x) xs ys

extract_line_empty : (found : Bytes × Bytes) → extract_line found [] ≡ found
unfolding extract_line has_suffix has_prefix
extract_line_empty found = refl

extract_lines-Blank :
    (found : Bytes × Bytes) (ls : List Bytes) → Blank ls → extract_lines found ls ≡ found
unfolding extract_lines
extract_lines-Blank found [] h = refl
extract_lines-Blank found (l ∷ ls) (e, h) =
    rw e (ap (λ f. extract_lines f ls) (extract_line_empty found) ∙ extract_lines-Blank found ls h)

parses_lines :
    (lib : TimeLib) (b : Bytes) (m : Message)
    → parse_message lib b ≡ ok m
    → parse_lines lib (split (trim_right b b'\n') b'\n') ≡ ok m
unfolding parse_message
parses_lines lib b m h =
    let (_, _, h1) = bind-eq-ok (guard (not (ltb max_message_bytes (length b))) too_large) _ h in
    let (_, _, h2) = bind-eq-ok (guard (not (contains_byte b b'\r')) crlf) _ h1 in
    let lines = split (trim_right b b'\n') b'\n' in
    let (_, _, h3) = bind-eq-ok (guard (not (ltb (length lines) 6)) too_few_lines) _ h2 in h3

-- From a message that `ParseMessage` accepts, `ExtractDomainNonce` takes the domain and the nonce of
-- the parsed message, if no line behind the first ends in the header's text.
pub extract-parse_message :
    (lib : TimeLib) (b : Bytes) (m : Message)
    → parse_message lib b ≡ ok m
    → All NoHeader (drop 1 (split b b'\n'))
    → extract_domain_nonce b ≡ (m.domain, m.nonce)
unfolding extract_domain_nonce
extract-parse_message lib b m h quiet =
    let t = Trimmed-split b in
    let quiet_lines : All NoHeader (t.others ++ t.blank) = rw t.whole_is at quiet in
    let (plain, _) = All-split NoHeader t.others t.blank quiet_lines in
    let text =
      parse_lines_sound lib (t.first ∷ t.others) m (rw t.trimmed_is at (parses_lines lib b m h)) in
    ap (extract_lines ([], [])) t.whole_is
    ∙ extract_lines-append ([], []) (t.first ∷ t.others) t.blank
    ∙ extract_lines-Blank _ t.blank t.blank_is
    ∙ extract-text lib (t.first ∷ t.others) m text plain
