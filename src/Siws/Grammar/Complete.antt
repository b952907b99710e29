-- ===== src/Siws/Grammar/Complete.antt =====
-- siws/parse.go against the grammar: from a text of the grammar to the parser.
use mathlib.Core.List.{cons-ne-nil}
use siwx_go.Base.{
  ◌<◌, [], ◌∷◌, ◌++◌, List, Bytes, codes, Option, none, some, equal, equal_iff, true, false, ◌≡◌,
  refl, ap, sym, ◌∙◌, arith,
}
use siwx_go.Go.Strings.{has_prefix}
use siwx_go.Go.Time.{TimeLib}
use siwx_go.Siws.Errors.{Field, Result, ok, ◌>>=◌}
use siwx_go.Siws.Fields.Laws.{
  equal-false, expect_field-label, read_domain_line, read_address_line, read_blank_line,
  read_statement_line, read_statement_none, read_chain_id_line, read_chain_id_empty,
  is_field_prefix-uri,
}
use siwx_go.Siws.Fields.{read_statement, read_chain_id, is_field_prefix}
use siwx_go.Siws.Message.{Message, label}
use siwx_go.Siws.Parse.{parse_lines}
use siwx_go.Siws.Trailer.{Trailer, run_trailer}
use siwx_go.Siws.Trailer.Lines.{
  step_expiration, step_not_before, step_request_id, step_resources, run_resources,
}
use siwx_go.Siws.Grammar.{
  ResourceBlock, no_resources, resource_list, RequestBlock, no_request, request, StartBlock,
  no_start, start, OptionalFields, no_expiration, expiration, statement_block, chain_block,
  chain_or_mainnet, IsMessageText,
}

module _ (lib : TimeLib) where
  -- What the loop returns, as `ParseMessage` uses it.
  abbrev finished : Trailer → List Bytes → Result Message
  finished s ls = run_trailer lib s ls >>= λ t. ok t.message

  module _ (m' : Message) where
    complete_resources :
        (ls : List Bytes) (s : Trailer)
        → s.in_resources ≡ false
        → s.stage < 4
        → ResourceBlock s.message ls m'
        → finished s ls ≡ ok m'
    unfolding run_trailer
    complete_resources ls s outer k (no_resources e q) = rw e (ap ok (sym q))
    complete_resources ls s outer k (resource_list rs e q) =
        rw (e, step_resources lib s outer k, run_resources lib rs s.message) (ap ok (sym q))

    complete_request :
        (ls : List Bytes) (s : Trailer)
        → s.in_resources ≡ false
        → s.stage < 3
        → RequestBlock s.message ls m'
        → finished s ls ≡ ok m'
    unfolding run_trailer
    complete_request ls s outer k (no_request b) = complete_resources ls s outer (omega arith) b
    complete_request ls s outer k (request id rest e b) =
        rw (e, step_request_id lib s outer id k) (complete_resources rest _ refl (omega arith) b)

    complete_start :
        (ls : List Bytes) (s : Trailer)
        → s.in_resources ≡ false
        → s.stage < 2
        → StartBlock lib s.message ls m'
        → finished s ls ≡ ok m'
    unfolding run_trailer
    complete_start ls s outer k (no_start b) = complete_request ls s outer (omega arith) b
    complete_start ls s outer k (start v t rest e p b) =
        rw (e, step_not_before lib s outer v t k p) (complete_request rest _ refl (omega arith) b)

    complete_optional :
        (ls : List Bytes) (s : Trailer)
        → s.in_resources ≡ false
        → s.stage < 1
        → OptionalFields lib s.message ls m'
        → finished s ls ≡ ok m'
    unfolding run_trailer
    complete_optional ls s outer k (no_expiration b) = complete_start ls s outer (omega arith) b
    complete_optional ls s outer k (expiration v t rest e p b) =
        rw (e, step_expiration lib s outer v t k p) (complete_start rest _ refl (omega arith) b)

read_statement_block :
    (s v : Bytes) (ls : List Bytes)
    → is_field_prefix s ≡ false
    → read_statement (statement_block s ((label Field.uri ++ v) ∷ ls))
      ≡ ok (s, (label Field.uri ++ v) ∷ ls)
read_statement_block [] v ls h =
    read_statement_none ls (label Field.uri ++ v) (is_field_prefix-uri v)
read_statement_block (c ∷ s) v ls h =
    read_statement_line ((label Field.uri ++ v) ∷ ls) (c ∷ s) (cons-ne-nil c s) h

read_chain_block :
    (c : Option Bytes) (v : Bytes) (ls : List Bytes)
    → read_chain_id (chain_block c ((label Field.nonce ++ v) ∷ ls))
      ≡ ok (chain_or_mainnet c, (label Field.nonce ++ v) ∷ ls)
read_chain_block none v ls = unfold read_chain_id has_prefix label equal in refl
read_chain_block (some []) v ls = read_chain_id_empty ((label Field.nonce ++ v) ∷ ls)
read_chain_block (some (c ∷ s)) v ls =
    read_chain_id_line ((label Field.nonce ++ v) ∷ ls) (c ∷ s) (cons-ne-nil c s)

-- Every text of the grammar is accepted.
pub parse_lines_complete :
    (lib : TimeLib) (lines : List Bytes) (m : Message)
    → IsMessageText lib lines m
    → parse_lines lib lines ≡ ok m
unfolding parse_lines
parse_lines_complete lib lines m t =
    let r = t.required in
    let version : equal (codes "1") (codes "1") ≡ true =
      (equal_iff (codes "1") (codes "1")).1 refl in
    let uri : equal r.uri [] ≡ false = equal-false r.uri [] t.uri_ne_nil in
    rw
      (
        t.lines_are,
        read_domain_line _ r.domain t.domain_ne_nil,
        read_address_line _ r.address t.key t.address_ne_nil t.key_decodes t.key_size,
        read_blank_line,
        read_statement_block r.statement r.uri _ t.statement_plain,
        expect_field-label,
        uri,
        expect_field-label,
        version,
        read_chain_block t.chain_text r.nonce _,
        expect_field-label,
        t.nonce_valid,
        expect_field-label,
        t.issued,
      )
      (ap
          (λ (q : Message).
            finished lib (record { stage = 0; in_resources = false; message = q }) t.rest)
          (sym t.required_is)
        ∙ complete_optional lib m t.rest (record { stage = 0; in_resources = false; message = r })
            refl (omega arith) t.optional)
