-- ===== src/Siws/Grammar/Sound.antt =====
-- siws/parse.go against the grammar: from an accepted text to the grammar.
use siwx_go.Base.{
  ℕ, [], ◌∷◌, ◌++◌, List, Bytes, codes, Option, none, Bool, equal, equal_iff, not, true, false, ◌≡◌,
  ◌≢◌, ◌↔◌, refl, arith,
}
use siwx_go.Go.Time.{TimeLib}
use siwx_go.Siws.Errors.{
  Field, Result, Reason, ok, ◌>>=◌, bind-eq-ok, no_blank_after_address, empty_uri, bad_version,
  bad_nonce,
}
use siwx_go.Siws.Fields.Read.{
  expect_field-reads, read_domain-reads, IsAddress, read_address-reads, read_blank-reads,
  read_statement-reads, read_chain_id-reads,
}
use siwx_go.Siws.Fields.{
  guard, expect_field, is_field_prefix, valid_nonce, read_domain, read_address, read_blank,
  read_statement, read_chain_id,
}
use siwx_go.Siws.Message.{Message, label, header_suffix}
use siwx_go.Siws.Parse.{parse_lines}
use siwx_go.Siws.Trailer.{Trailer, run_trailer, parse_issued_at}
use siwx_go.Siws.Grammar.{IsMessageText, statement_block, chain_block, chain_or_mainnet}
use siwx_go.Siws.Grammar.Optional.{sound_optional}
use siwx_go.Siws.Grammar.Complete.{parse_lines_complete}

passed : (c : Bool) (e : Reason) {u : Unit {0}} → guard c e ≡ ok u → c ≡ true
unfolding guard
passed true e h = refl
passed false e h = cc

after {ℓ κ ℓ'} :
    {A : Type ℓ} {B : Type κ} {C : Type ℓ'} (m : Result A) {f : A → Result B} {b : B}
    → (m >>= f) ≡ ok b
    → ((a : A) → m ≡ ok a → f a ≡ ok b → C)
    → C
after m {f = f} h k = let (a, e, h') = bind-eq-ok m f h in k a e h'

same_message : (m m' : Message) → ok m ≡ ok m' → m ≡ m'
same_message m m' h = cc

-- The pieces, put together.
module _ (lib : TimeLib) (lines : List Bytes) (m : Message) (x1 x2 : Bytes × List Bytes)
    (x3 : Unit {0} × List Bytes) (x4 x5 x7 x9 x10 x12 : Bytes × List Bytes) (issued : ℕ)
    (s : Trailer) where
  abbrev read_so_far : Message
  read_so_far = record {
    domain = x1.0;
    address = x2.0;
    statement = x4.0;
    uri = x5.0;
    version = x7.0;
    chain_id = x9.0;
    nonce = x10.0;
    issued_at = issued;
    expiration_time = none;
    not_before = none;
    request_id = [];
    resources = [];
  }

  text_of :
      (lines ≡ (x1.0 ++ header_suffix) ∷ x1.1) × (x1.0 ≢ [])
      → (x1.1 ≡ x2.0 ∷ x2.1) × IsAddress x2.0
      → x2.1 ≡ [] ∷ x3.1
      → (x3.1 ≡ statement_block x4.0 x4.1) × (is_field_prefix x4.0 ≡ false)
      → x4.1 ≡ (label Field.uri ++ x5.0) ∷ x5.1
      → not (equal x5.0 []) ≡ true
      → x5.1 ≡ (label Field.version ++ x7.0) ∷ x7.1
      → equal x7.0 (codes "1") ≡ true
      → (o : Option Bytes) × (x7.1 ≡ chain_block o x9.1) × (x9.0 ≡ chain_or_mainnet o)
      → x9.1 ≡ (label Field.nonce ++ x10.0) ∷ x10.1
      → valid_nonce x10.0 ≡ true
      → x10.1 ≡ (label Field.issued_at ++ x12.0) ∷ x12.1
      → parse_issued_at lib x12.0 ≡ ok issued
      → run_trailer lib (record { stage = 0; in_resources = false; message = read_so_far }) x12.1
        ≡ ok s
      → s.message ≡ m
      → IsMessageText lib lines m
  text_of (d, d_ne) (a, address) b (st, plain) u given v first (o, c, chain) n valid i stamp run
        same =
      let one : x7.0 ≡ codes "1" = (equal_iff x7.0 (codes "1")).0 first in
      let optional =
        sound_optional lib s x12.1
          (record { stage = 0; in_resources = false; message = read_so_far }) refl run in
      record {
        required = read_so_far;
        key = address.key;
        chain_text = o;
        stamp = x12.0;
        rest = x12.1;
        lines_are = rw (d, a, b, st, u, v, one, c, n, i);
        domain_ne_nil = d_ne;
        address_ne_nil = address.ne_nil;
        key_decodes = address.decodes;
        key_size = address.key_size;
        statement_plain = plain;
        uri_ne_nil = ground (arith, equal_iff x5.0 []);
        nonce_valid = valid;
        issued = stamp;
        required_is = λ j. record read_so_far { version = one j; chain_id = chain j };
        optional = rw same at optional;
      }

-- What is accepted is a text of the grammar, and stands for the message that is returned.
pub parse_lines_sound :
    (lib : TimeLib) (lines : List Bytes) (m : Message)
    → parse_lines lib lines ≡ ok m
    → IsMessageText lib lines m
unfolding parse_lines
parse_lines_sound lib lines m h0 = after (read_domain lines) h0 (λ x1 e1 h1.
    after (read_address x1.1) h1 (λ x2 e2 h2.
      after (read_blank no_blank_after_address x2.1) h2 (λ x3 e3 h3.
        after (read_statement x3.1) h3 (λ x4 e4 h4.
          after (expect_field Field.uri x4.1) h4 (λ x5 e5 h5.
            after (guard (not (equal x5.0 [])) empty_uri) h5 (λ _ given h6.
              after (expect_field Field.version x5.1) h6 (λ x7 e7 h7.
                after (guard (equal x7.0 (codes "1")) bad_version) h7 (λ _ first h8.
                  after (read_chain_id x7.1) h8 (λ x9 e9 h9.
                    after (expect_field Field.nonce x9.1) h9 (λ x10 e10 h10.
                      after (guard (valid_nonce x10.0) bad_nonce) h10 (λ _ valid h11.
                        after (expect_field Field.issued_at x10.1) h11 (λ x12 e12 h12.
                          after (parse_issued_at lib x12.0) h12 (λ issued e13 h13.
                            after (run_trailer lib _ x12.1) h13 (λ s e14 h14.
                              text_of lib lines m x1 x2 x3 x4 x5 x7 x9 x10 x12 issued s
                                (read_domain-reads lines x1.1 x1.0 e1)
                                (read_address-reads x1.1 x2.1 x2.0 e2)
                                (read_blank-reads no_blank_after_address x2.1 x3.1 e3)
                                (read_statement-reads x3.1 x4.1 x4.0 e4)
                                (expect_field-reads Field.uri x4.1 x5.1 x5.0 e5)
                                (passed (not (equal x5.0 [])) empty_uri given)
                                (expect_field-reads Field.version x5.1 x7.1 x7.0 e7)
                                (passed (equal x7.0 (codes "1")) bad_version first)
                                (read_chain_id-reads x7.1 x9.1 x9.0 e9)
                                (expect_field-reads Field.nonce x9.1 x10.1 x10.0 e10)
                                (passed (valid_nonce x10.0) bad_nonce valid)
                                (expect_field-reads Field.issued_at x10.1 x12.1 x12.0 e12) e13 e14
                                (same_message s.message m h14)))))))))))))))

-- The lines that `ParseMessage` accepts are exactly the texts of the grammar, and it returns the
-- message that the grammar gives the text.
pub parse_lines_iff :
    (lib : TimeLib) (lines : List Bytes) (m : Message)
    → (parse_lines lib lines ≡ ok m) ↔ IsMessageText lib lines m
parse_lines_iff lib lines m = (parse_lines_sound lib lines m, parse_lines_complete lib lines m)
