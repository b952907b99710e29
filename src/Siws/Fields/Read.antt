-- ===== src/Siws/Fields/Read.antt =====
-- siws/parse.go: what each piece has read, where it succeeds.
use siwx_go.Base.{
  ℕ, [], ◌∷◌, ◌++◌, List, Bytes, Option, none, some, if◌then◌else◌, equal, equal_iff, false, length,
  ◌≡◌, ◌≢◌, refl, arith, inl, inr, Bool-cases, sym, ◌∙◌,
}
use siwx_go.Go.Strings.{has_prefix, trim_prefix, trim_suffix}
use siwx_go.Go.Strings.Laws.{append-trim_prefix, trim_suffix_append}
use siwx_go.Siws.Base58.{decode_base58}
use siwx_go.Siws.Errors.{Field, Result, Reason, ok, Result-cases, bind-eq-ok}
use siwx_go.Siws.Message.{header_suffix, mainnet, label}
use siwx_go.Siws.Fields.{
  next_line, expect_field, is_field_prefix, read_domain, check_address, read_address, read_blank,
  read_statement, read_chain_id, given_chain_id,
}
use siwx_go.Siws.Grammar.{statement_block, chain_block, chain_or_mainnet}

abbrev returned : Bytes × List Bytes → Result (Bytes × List Bytes)
returned r = ok r

same_read :
    (v v' : Bytes) (ls ls' : List Bytes)
    → returned (v, ls) ≡ returned (v', ls')
    → (v ≡ v') × (ls ≡ ls')
same_read v v' ls ls' h = (cc, cc)

pub expect_field-reads :
    (f : Field) (ls rest : List Bytes) (v : Bytes)
    → expect_field f ls ≡ ok (v, rest)
    → ls ≡ (label f ++ v) ∷ rest
unfolding expect_field
expect_field-reads f [] rest v h = absurd (ground arith)
expect_field-reads f (l ∷ ls) rest v h = ground (arith, append-trim_prefix l (label f))

pub read_domain-reads :
    (ls rest : List Bytes) (d : Bytes)
    → read_domain ls ≡ ok (d, rest)
    → (ls ≡ (d ++ header_suffix) ∷ rest) × (d ≢ [])
unfolding read_domain
read_domain-reads [] rest d h = absurd (ground arith)
read_domain-reads (l ∷ ls) rest d h =
    ground (arith, trim_suffix_append l header_suffix, equal_iff (trim_suffix l header_suffix) [])

-- A checked address spells a key.
pub record IsAddress (a : Bytes) : Type 0 where
  pub ne_nil : a ≢ []
  pub key : Bytes
  pub decodes : decode_base58 a ≡ ok key
  pub key_size : length key ≡ 32

check_address-IsAddress : (a : Bytes) → check_address a ≡ ok tt → IsAddress a
unfolding check_address
check_address-IsAddress a h = elim (Result-cases (decode_base58 a)) [
  | inl (k, e) ↦ record {
    ne_nil = ground (arith, equal_iff a []);
    key = k;
    decodes = e;
    key_size = ground arith;
  }
  | inr (inl (r, e)) ↦ absurd (ground arith)
  | inr (inr e) ↦ absurd (ground arith)
]

pub read_address-reads :
    (ls rest : List Bytes) (a : Bytes)
    → read_address ls ≡ ok (a, rest)
    → (ls ≡ a ∷ rest) × IsAddress a
unfolding read_address next_line
read_address-reads [] rest a h = absurd (ground arith)
read_address-reads (l ∷ ls) rest a h =
    let (u, checked, read) = bind-eq-ok (check_address l) (λ _. returned (l, ls)) h in
    let (same, left) = same_read l a ls rest read in
    rw (sym same, sym left) (refl, check_address-IsAddress l checked)

pub read_blank-reads :
    (e : Reason) (ls rest : List Bytes) → read_blank e ls ≡ ok (tt, rest) → ls ≡ [] ∷ rest
unfolding read_blank
read_blank-reads e [] rest h = absurd (ground arith)
read_blank-reads e (l ∷ ls) rest h = ground (arith, equal_iff l [])

no_statement :
    (lines rest : List Bytes) (s : Bytes)
    → returned ([], lines) ≡ returned (s, rest)
    → (lines ≡ statement_block s rest) × (is_field_prefix s ≡ false)
unfolding is_field_prefix has_prefix label
no_statement lines rest s h =
    let (empty, left) = same_read [] s lines rest h in rw (sym empty) (left, refl)

a_statement :
    (c : ℕ) (l b : Bytes) (ls rest : List Bytes) (s : Bytes)
    → is_field_prefix (c ∷ l) ≡ false
    → b ≡ []
    → returned (c ∷ l, ls) ≡ returned (s, rest)
    → ((c ∷ l) ∷ b ∷ ls ≡ statement_block s rest) × (is_field_prefix s ≡ false)
a_statement c l b ls rest s plain blank h =
    let (same, left) = same_read (c ∷ l) s ls rest h in
    rw (sym same) ((λ i. (c ∷ l) ∷ blank i ∷ left i), plain)

pub read_statement-reads :
    (ls rest : List Bytes) (s : Bytes)
    → read_statement ls ≡ ok (s, rest)
    → (ls ≡ statement_block s rest) × (is_field_prefix s ≡ false)
unfolding read_statement equal
read_statement-reads [] rest s h = no_statement [] rest s h
read_statement-reads ([] ∷ ls) rest s h = no_statement ([] ∷ ls) rest s h
read_statement-reads ((c ∷ l) ∷ []) rest s h = elim (Bool-cases (is_field_prefix (c ∷ l))) [
  | inl e ↦ no_statement ((c ∷ l) ∷ []) rest s (rw e at h)
  | inr e ↦ absurd (ground arith)
]
read_statement-reads ((c ∷ l) ∷ [] ∷ ls) rest s h = elim (Bool-cases (is_field_prefix (c ∷ l))) [
  | inl e ↦ no_statement ((c ∷ l) ∷ [] ∷ ls) rest s (rw e at h)
  | inr e ↦ a_statement c l [] ls rest s e refl (rw e at h)
]
read_statement-reads ((c ∷ l) ∷ (b ∷ bs) ∷ ls) rest s h =
    elim (Bool-cases (is_field_prefix (c ∷ l))) [
      | inl e ↦ no_statement ((c ∷ l) ∷ (b ∷ bs) ∷ ls) rest s (rw e at h)
      | inr e ↦ absurd (ground arith)
    ]

chain_read : (v : Bytes) → (if equal v [] then mainnet else v) ≡ chain_or_mainnet (some v)
unfolding equal
chain_read [] = refl
chain_read (c ∷ v) = refl

pub read_chain_id-reads :
    (ls rest : List Bytes) (c : Bytes)
    → read_chain_id ls ≡ ok (c, rest)
    → (o : Option Bytes) × (ls ≡ chain_block o rest) × (c ≡ chain_or_mainnet o)
unfolding read_chain_id given_chain_id equal
read_chain_id-reads [] rest c h =
    let (same, left) = same_read mainnet c [] rest h in (none, left, sym same)
read_chain_id-reads (l ∷ ls) rest c h = elim (Bool-cases (has_prefix l (label Field.chain_id))) [
  | inl e ↦
      let v = trim_prefix l (label Field.chain_id) in
      let (same, left) = same_read (if equal v [] then mainnet else v) c ls rest (rw e at h) in
      (
        some v,
        (λ i. append-trim_prefix l (label Field.chain_id) e i ∷ left i),
        sym same ∙ chain_read v,
      )
  | inr e ↦
      let (same, left) = same_read mainnet c (l ∷ ls) rest (rw e at h) in (none, left, sym same)
]
