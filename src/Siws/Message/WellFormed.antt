-- ===== src/Siws/Message/WellFormed.antt =====
-- siws/message.go: the messages that the grammar can express.
use mathlib.Core.List.{cons-ne-nil}
use siwx_go.Base.{
  ℕ, [], ◌∷◌, ◌++◌, List, map, Bytes, codes, Option, none, some, true, false, length, ◌≡◌, ◌≢◌,
  refl, arith, All, All-append,
}
use siwx_go.Go.Strings.Laws.{OneLine, OneLine-append, all_bytes-Lacks}
use siwx_go.Go.Strings.Lines.{last_line}
use siwx_go.Go.Time.{TimeLib, TimeLaws}
use siwx_go.Siws.Base58.{decode_base58}
use siwx_go.Siws.Base58.RoundTrip.{OneLine-decode}
use siwx_go.Siws.Errors.{Field, ok}
use siwx_go.Siws.Fields.{is_field_prefix, is_alphanumeric, valid_nonce}
use siwx_go.Go.Strings.{all_bytes}
use siwx_go.Siws.Message.{Message, label, header_suffix}
use siwx_go.Siws.Message.Lines.{statement_lines, field_lines, tail_lines}
use siwx_go.Siws.Trailer.{dash}
use siwx_go.Siws.Trailer.Lines.{IsExact?, time_lines, request_lines, resource_part, trailer_lines}

-- What holds of a parsed message, whatever its timestamps are.
pub record IsWellFormed (m : Message) : Type 0 where
  pub domain_ne_nil : m.domain ≢ []
  pub domain_line : OneLine m.domain
  pub address_ne_nil : m.address ≢ []
  pub key : Bytes
  pub key_decodes : decode_base58 m.address ≡ ok key
  pub key_size : length key ≡ 32
  pub statement_plain : is_field_prefix m.statement ≡ false
  pub statement_line : OneLine m.statement
  pub uri_ne_nil : m.uri ≢ []
  pub uri_line : OneLine m.uri
  pub version_is : m.version ≡ codes "1"
  pub chain_id_ne_nil : m.chain_id ≢ []
  pub chain_id_line : OneLine m.chain_id
  pub nonce_valid : valid_nonce m.nonce ≡ true
  pub request_id_line : OneLine m.request_id
  pub resources_line : All OneLine m.resources

-- The timestamps are written without loss.
pub record HasExactTimes (lib : TimeLib) (m : Message) : Type 0 where
  pub issued_at_exact : lib.is_exact m.issued_at ≡ true
  pub expiration_exact : IsExact? lib m.expiration_time
  pub not_before_exact : IsExact? lib m.not_before

OneLine-label : (f : Field) → OneLine (label f)
unfolding label
OneLine-label Field.uri = omega arith
OneLine-label _ = omega arith

OneLine-labelled : (f : Field) (v : Bytes) → OneLine v → OneLine (label f ++ v)
OneLine-labelled f v = OneLine-append (label f) v (OneLine-label f)

OneLine-nonce : (s : Bytes) → valid_nonce s ≡ true → OneLine s
unfolding valid_nonce
OneLine-nonce s h =
    let h' : all_bytes is_alphanumeric s ≡ true = ground arith in
    (
      all_bytes-Lacks is_alphanumeric s b'\n' (unfold is_alphanumeric in refl) h',
      all_bytes-Lacks is_alphanumeric s b'\r' (unfold is_alphanumeric in refl) h',
    )

module _ (lib : TimeLib) (laws : TimeLaws lib) where
  OneLine-time_lines :
      (f : Field) (o : Option ℕ) → IsExact? lib o → All OneLine (time_lines lib f o)
  OneLine-time_lines f none x = tt
  OneLine-time_lines f (some t) x = (OneLine-labelled f _ (laws.OneLine-format t x), tt)

OneLine-request_lines : (id : Bytes) → OneLine id → All OneLine (request_lines id)
OneLine-request_lines [] h = tt
OneLine-request_lines (c ∷ id) h = (OneLine-labelled Field.request_id (c ∷ id) h, tt)

OneLine-resources : (rs : List Bytes) → All OneLine rs → All OneLine (map (λ r. dash ++ r) rs)
OneLine-resources [] h = tt
OneLine-resources (r ∷ rs) (hr, hrs) =
    (OneLine-append dash r (omega arith) hr, OneLine-resources rs hrs)

OneLine-resource_part : (rs : List Bytes) → All OneLine rs → All OneLine (resource_part rs)
OneLine-resource_part [] h = tt
OneLine-resource_part (r ∷ rs) h = (OneLine-label Field.resources, OneLine-resources (r ∷ rs) h)

OneLine-statement_lines : (s : Bytes) → OneLine s → All OneLine (statement_lines s)
OneLine-statement_lines [] h = tt
OneLine-statement_lines (c ∷ s) h = ((tt, tt), (h, tt))

module _ (lib : TimeLib) (laws : TimeLaws lib) (m : Message) (w : IsWellFormed m)
    (x : HasExactTimes lib m) where
  OneLine-trailer_lines : All OneLine (trailer_lines lib m)
  OneLine-trailer_lines =
      All-append OneLine (time_lines lib Field.expiration_time m.expiration_time) _
        (OneLine-time_lines lib laws Field.expiration_time m.expiration_time x.expiration_exact)
        (All-append OneLine (time_lines lib Field.not_before m.not_before) _
          (OneLine-time_lines lib laws Field.not_before m.not_before x.not_before_exact)
          (All-append OneLine (request_lines m.request_id) (resource_part m.resources)
            (OneLine-request_lines m.request_id w.request_id_line)
            (OneLine-resource_part m.resources w.resources_line)))

  OneLine-version : OneLine m.version
  OneLine-version = rw w.version_is (omega arith)

  OneLine-field_lines : All OneLine (field_lines lib m)
  OneLine-field_lines = (
    (tt, tt),
    (
      OneLine-labelled Field.uri m.uri w.uri_line,
      (
        OneLine-labelled Field.version m.version OneLine-version,
        (
          OneLine-labelled Field.chain_id m.chain_id w.chain_id_line,
          (
            OneLine-labelled Field.nonce m.nonce (OneLine-nonce m.nonce w.nonce_valid),
            (
              OneLine-labelled Field.issued_at (lib.format m.issued_at)
                  (laws.OneLine-format m.issued_at x.issued_at_exact),
              OneLine-trailer_lines,
            ),
          ),
        ),
      ),
    ),
  )

  -- No line that `String` writes holds a line end.
  pub OneLine-tail_lines : All OneLine (tail_lines lib m)
  OneLine-tail_lines = (
    OneLine-decode m.address w.key w.key_decodes,
    All-append OneLine (statement_lines m.statement) (field_lines lib m)
        (OneLine-statement_lines m.statement w.statement_line) OneLine-field_lines,
  )

  pub OneLine-header : OneLine (m.domain ++ header_suffix)
  OneLine-header = OneLine-append m.domain header_suffix w.domain_line (omega arith)

append-ne-nil : (a b : Bytes) → a ≢ [] → a ++ b ≢ []
append-ne-nil [] b h = absurd (h refl)
append-ne-nil (c ∷ a) b h = cons-ne-nil c (a ++ b)

label-ne-nil : (f : Field) → label f ≢ []
unfolding label
label-ne-nil Field.uri = cons-ne-nil _ _
label-ne-nil _ = cons-ne-nil _ _

labelled-ne-nil : (f : Field) (v : Bytes) → label f ++ v ≢ []
labelled-ne-nil f v = append-ne-nil (label f) v (label-ne-nil f)

abbrev NonEmpty : List Bytes → Type 0
NonEmpty = All (λ (l : Bytes). l ≢ [])

module _ (lib : TimeLib) where
  NonEmpty-time_lines : (f : Field) (o : Option ℕ) → NonEmpty (time_lines lib f o)
  NonEmpty-time_lines f none = tt
  NonEmpty-time_lines f (some t) = (labelled-ne-nil f (lib.format t), tt)

NonEmpty-request_lines : (id : Bytes) → NonEmpty (request_lines id)
NonEmpty-request_lines [] = tt
NonEmpty-request_lines (c ∷ id) = (labelled-ne-nil Field.request_id (c ∷ id), tt)

NonEmpty-resources : (rs : List Bytes) → NonEmpty (map (λ r. dash ++ r) rs)
NonEmpty-resources [] = tt
NonEmpty-resources (r ∷ rs) = (cons-ne-nil _ _, NonEmpty-resources rs)

NonEmpty-resource_part : (rs : List Bytes) → NonEmpty (resource_part rs)
NonEmpty-resource_part [] = tt
NonEmpty-resource_part (r ∷ rs) = (label-ne-nil Field.resources, NonEmpty-resources (r ∷ rs))

last_line-ne-nil : (l : Bytes) (ls : List Bytes) → l ≢ [] → NonEmpty ls → last_line l ls ≢ []
last_line-ne-nil l [] h _ = h
last_line-ne-nil l (m ∷ ls) h (hm, hls) = last_line-ne-nil m ls hm hls

last_line-append :
    (l : Bytes) (xs : List Bytes) (y : Bytes) (ys : List Bytes)
    → last_line l (xs ++ y ∷ ys) ≡ last_line y ys
last_line-append l [] y ys = refl
last_line-append l (x ∷ xs) y ys = last_line-append x xs y ys

-- The last line is not empty: it belongs to a field.
pub last_line-tail_lines :
    (lib : TimeLib) (l : Bytes) (m : Message) → last_line l (tail_lines lib m) ≢ []
last_line-tail_lines lib l m =
    let issued = label Field.issued_at ++ lib.format m.issued_at in
    let full : NonEmpty (trailer_lines lib m) =
      All-append (λ (t : Bytes). t ≢ []) (time_lines lib Field.expiration_time m.expiration_time) _
        (NonEmpty-time_lines lib Field.expiration_time m.expiration_time)
        (All-append (λ (t : Bytes). t ≢ []) (time_lines lib Field.not_before m.not_before) _
          (NonEmpty-time_lines lib Field.not_before m.not_before)
          (All-append (λ (t : Bytes). t ≢ []) (request_lines m.request_id)
            (resource_part m.resources) (NonEmpty-request_lines m.request_id)
            (NonEmpty-resource_part m.resources))) in
    rw (last_line-append m.address (statement_lines m.statement) [] _)
      (last_line-ne-nil issued (trailer_lines lib m) (labelled-ne-nil Field.issued_at _) full)
