-- ===== src/Siws/Fields/Laws.antt =====
-- siws/parse.go: what each piece returns on a line that `String` writes.
use siwx_go.Base.{
  [], ◌∷◌, ◌++◌, List, Bytes, equal, equal_iff, true, false, length, ◌≡◌, ◌≢◌, refl, arith,
}
use siwx_go.Go.Strings.Laws.{
  has_prefix-append, trim_prefix-append, has_suffix-append, trim_suffix-append,
}
use siwx_go.Siws.Base58.{decode_base58}
use siwx_go.Siws.Errors.{Field, Reason, ok}
use siwx_go.Siws.Message.{header_suffix, mainnet, label}
use siwx_go.Siws.Fields.{
  expect_field, is_field_prefix, read_domain, read_address, read_blank, read_statement,
  read_chain_id,
}

pub equal-false : (a b : Bytes) → a ≢ b → equal a b ≡ false
equal-false a b h = ground (arith, equal_iff a b)

module _ (ls : List Bytes) where
  pub expect_field-label :
      (f : Field) (v : Bytes) → expect_field f ((label f ++ v) ∷ ls) ≡ ok (v, ls)
  unfolding expect_field
  expect_field-label f v = rw (has_prefix-append (label f) v, trim_prefix-append (label f) v)

  pub read_domain_line : (d : Bytes) → d ≢ [] → read_domain ((d ++ header_suffix) ∷ ls) ≡ ok (d, ls)
  unfolding read_domain
  read_domain_line d h =
      rw (has_suffix-append d header_suffix, trim_suffix-append d header_suffix, equal-false d [] h)

  pub read_address_line :
      (addr key : Bytes)
      → addr ≢ []
      → decode_base58 addr ≡ ok key
      → length key ≡ 32
      → read_address (addr ∷ ls) ≡ ok (addr, ls)
  unfolding read_address
  read_address_line addr key h e n = rw (equal-false addr [] h, e, n)

  pub read_blank_line : (e : Reason) → read_blank e ([] ∷ ls) ≡ ok (tt, ls)
  unfolding read_blank equal
  read_blank_line e = refl

  pub read_statement_line :
      (s : Bytes) → s ≢ [] → is_field_prefix s ≡ false → read_statement (s ∷ [] ∷ ls) ≡ ok (s, ls)
  unfolding read_statement equal
  read_statement_line s h e = rw (equal-false s [] h, e)

  pub read_statement_none :
      (l : Bytes) → is_field_prefix l ≡ true → read_statement (l ∷ ls) ≡ ok ([], l ∷ ls)
  unfolding read_statement
  read_statement_none l e = ground arith

  pub read_chain_id_line :
      (c : Bytes) → c ≢ [] → read_chain_id ((label Field.chain_id ++ c) ∷ ls) ≡ ok (c, ls)
  unfolding read_chain_id
  read_chain_id_line c h = rw (
    has_prefix-append (label Field.chain_id) c,
    trim_prefix-append (label Field.chain_id) c,
    equal-false c [] h,
  )

  pub read_chain_id_empty : read_chain_id ((label Field.chain_id ++ []) ∷ ls) ≡ ok (mainnet, ls)
  unfolding read_chain_id equal
  read_chain_id_empty =
      rw (has_prefix-append (label Field.chain_id) [], trim_prefix-append (label Field.chain_id) [])

-- A line that begins with a label is no statement.
pub is_field_prefix-uri : (v : Bytes) → is_field_prefix (label Field.uri ++ v) ≡ true
unfolding is_field_prefix
is_field_prefix-uri v = rw (has_prefix-append (label Field.uri) v)
