-- ===== src/Siws/Grammar/Returns.antt =====
-- siws/parse.go: reads of `lines[pos]` and panics.
use siwx_go.Base.{
  ℕ, ◌+◌, ◌*◌, ◌≤◌, [], ◌∷◌, List, Bytes, codes, Bool, equal, not, true, false, ltb, length, ◌≡◌,
  ◌≢◌, refl, ap, arith, inl, inr, Bool-cases, Option-cases,
}
use siwx_go.Go.Strings.{trim_prefix, trim_right, split}
use siwx_go.Go.Time.{TimeLib, rfc3339, millis_zone}
use siwx_go.Siws.Base58.{alphabet, index_from, table_entry, decode_base58, accumulate, digit_of}
use siwx_go.Siws.Errors.{
  Field, Result, Reason, ok, err, panicked, ◌>>=◌, no_blank_after_address, empty_uri, bad_version,
  bad_nonce, Result-cases,
}
use siwx_go.Siws.Fields.Read.{read_domain-reads, read_address-reads}
use siwx_go.Siws.Fields.{
  guard, next_line, expect_field, valid_nonce, read_domain, check_address, read_address, read_blank,
  read_statement, read_chain_id,
}
use siwx_go.Siws.Message.{label}
use siwx_go.Siws.Parse.{parse_lines, parse_message}
use siwx_go.Siws.Trailer.{
  Trailer, parse_layouts, parse_timestamp, parse_issued_at, trailer_step, run_trailer,
}

-- The result is a value or an error.
abbrev pub Calm {ℓ} : {A : Type ℓ} → Result A → Type ℓ
Calm r = r ≢ panicked

Calm-bind {ℓ κ} :
    {A : Type ℓ} {B : Type κ} (m : Result A) {f : A → Result B}
    → Calm m
    → ((a : A) → m ≡ ok a → Calm (f a))
    → Calm (m >>= f)
Calm-bind (ok a) c k = k a refl
Calm-bind (err e) c k = λ h. cc
Calm-bind panicked c k = λ h. c refl

Calm-guard : (c : Bool) (e : Reason) → Calm (guard c e)
unfolding guard
Calm-guard true e h = cc
Calm-guard false e h = cc

-- The guard keeps the index within the table.
Calm-digit : (r : ℕ) → Calm (digit_of r)
unfolding digit_of table_entry
Calm-digit r h = ground (arith, Option-cases (index_from 0 alphabet r))

Calm-accumulate : (n : ℕ) (s : Bytes) → Calm (accumulate n s)
unfolding accumulate
Calm-accumulate n [] h = cc
Calm-accumulate n (r ∷ s) h = elim (Result-cases (digit_of r)) [
  | inl (d, e) ↦ Calm-accumulate (n * 58 + d) s (ground arith)
  | inr (inl (x, e)) ↦ ground arith
  | inr (inr e) ↦ Calm-digit r e
]

pub Calm-decode : (s : Bytes) → Calm (decode_base58 s)
unfolding decode_base58
Calm-decode s h = elim (Result-cases (accumulate 0 s)) [
  | inl (n, e) ↦ ground arith
  | inr (inl (r, e)) ↦ ground arith
  | inr (inr e) ↦ Calm-accumulate 0 s e
]

Calm-next : (ls : List Bytes) → 1 ≤ length ls → Calm (next_line ls)
unfolding next_line
Calm-next [] n h = absurd (omega arith)
Calm-next (l ∷ ls) n h = cc

Calm-expect : (f : Field) (ls : List Bytes) → Calm (expect_field f ls)
unfolding expect_field
Calm-expect f [] h = cc
Calm-expect f (l ∷ ls) h = ground arith

Calm-domain : (ls : List Bytes) → 1 ≤ length ls → Calm (read_domain ls)
unfolding read_domain
Calm-domain [] n h = absurd (omega arith)
Calm-domain (l ∷ ls) n h = ground arith

Calm-check_address : (a : Bytes) → Calm (check_address a)
unfolding check_address
Calm-check_address a h = elim (Result-cases (decode_base58 a)) [
  | inl (k, e) ↦ ground arith
  | inr (inl (r, e)) ↦ ground arith
  | inr (inr e) ↦ Calm-decode a e
]

Calm-address : (ls : List Bytes) → 1 ≤ length ls → Calm (read_address ls)
unfolding read_address
Calm-address [] n = absurd (omega arith)
Calm-address (l ∷ ls) n = Calm-bind (check_address l) (Calm-check_address l) (λ _ _ h. cc)

Calm-blank : (e : Reason) (ls : List Bytes) → 1 ≤ length ls → Calm (read_blank e ls)
unfolding read_blank
Calm-blank e [] n h = absurd (omega arith)
Calm-blank e (l ∷ ls) n h = ground arith

Calm-statement : (ls : List Bytes) → Calm (read_statement ls)
unfolding read_statement
Calm-statement [] h = cc
Calm-statement (l ∷ []) h = ground arith
Calm-statement (l ∷ b ∷ ls) h = ground arith

Calm-chain_id : (ls : List Bytes) → Calm (read_chain_id ls)
unfolding read_chain_id
Calm-chain_id ls h = cc

module _ (lib : TimeLib) where
  Calm-issued : (s : Bytes) → Calm (parse_issued_at lib s)
  unfolding parse_issued_at
  Calm-issued s h = ground (arith, Option-cases (parse_layouts lib (rfc3339 ∷ millis_zone ∷ []) s))

  Calm-step : (s : Trailer) (l : Bytes) → Calm (trailer_step lib s l)
  unfolding trailer_step
  Calm-step s l h =
      elim (Option-cases (parse_timestamp lib (trim_prefix l (label Field.expiration_time)))) [
        | inl e ↦
            elim (Option-cases (parse_timestamp lib (trim_prefix l (label Field.not_before)))) [
              | inl f ↦ ground arith
              | inr (u, f) ↦ ground arith
            ]
        | inr (t, e) ↦
            elim (Option-cases (parse_timestamp lib (trim_prefix l (label Field.not_before)))) [
              | inl f ↦ ground arith
              | inr (u, f) ↦ ground arith
            ]
      ]

  Calm-trailer : (ls : List Bytes) (s : Trailer) → Calm (run_trailer lib s ls)
  unfolding run_trailer
  Calm-trailer [] s = λ h. cc
  Calm-trailer (l ∷ ls) s =
      Calm-bind (trailer_step lib s l) (Calm-step s l) (λ s' _. Calm-trailer ls s')

  read_length :
      {ls ls' : List Bytes} (n : ℕ) (l : Bytes) → ls ≡ l ∷ ls' → n + 1 ≤ length ls → n ≤ length ls'
  read_length n l e h = omega (arith, ap (λ (q : List Bytes). length q) e)

  -- Three lines are enough for what is read without a test of its length.
  Calm-lines : (ls : List Bytes) → 3 ≤ length ls → Calm (parse_lines lib ls)
  unfolding parse_lines
  Calm-lines ls n = Calm-bind (read_domain ls) (Calm-domain ls (omega arith)) (λ x1 e1.
      let n1 = read_length 2 _ (read_domain-reads ls x1.1 x1.0 e1).0 n in
      Calm-bind (read_address x1.1) (Calm-address x1.1 (omega arith)) (λ x2 e2.
        let n2 = read_length 1 _ (read_address-reads x1.1 x2.1 x2.0 e2).0 n1 in
        Calm-bind (read_blank no_blank_after_address x2.1)
          (Calm-blank no_blank_after_address x2.1 n2)
          (λ x3 _. Calm-bind (read_statement x3.1) (Calm-statement x3.1) (λ x4 _.
            Calm-bind (expect_field Field.uri x4.1) (Calm-expect Field.uri x4.1) (λ x5 _.
              Calm-bind (guard (not (equal x5.0 [])) empty_uri) (Calm-guard _ empty_uri) (λ _ _.
                Calm-bind (expect_field Field.version x5.1) (Calm-expect Field.version x5.1)
                  (λ x7 _.
                    Calm-bind (guard (equal x7.0 (codes "1")) bad_version)
                      (Calm-guard _ bad_version)
                      (λ _ _. Calm-bind (read_chain_id x7.1) (Calm-chain_id x7.1) (λ x9 _.
                        Calm-bind (expect_field Field.nonce x9.1) (Calm-expect Field.nonce x9.1)
                          (λ x10 _.
                            Calm-bind (guard (valid_nonce x10.0) bad_nonce) (Calm-guard _ bad_nonce)
                              (λ _ _.
                                Calm-bind (expect_field Field.issued_at x10.1)
                                  (Calm-expect Field.issued_at x10.1)
                                  (λ x12 _.
                                    Calm-bind (parse_issued_at lib x12.0) (Calm-issued x12.0)
                                      (λ issued _.
                                        Calm-bind (run_trailer lib _ x12.1) (Calm-trailer x12.1 _)
                                          (λ s _ h. cc))))))))))))))

  -- `ParseMessage` returns a message or an error for every input, and never panics.
  pub parse_message-Calm : (b : Bytes) → parse_message lib b ≢ panicked
  unfolding parse_message
  parse_message-Calm b h =
      let lines = split (trim_right b b'\n') b'\n' in
      elim (Bool-cases (ltb (length lines) 6)) [
        | inl e ↦ ground (arith, e)
        | inr e ↦ Calm-lines lines (ground (arith, e)) (ground (arith, e))
      ]
