-- ===== src/Siws/Trailer.antt =====
-- siws/parse.go: the loop over the optional fields, and the timestamps.
pub mod Lines
pub mod Laws
pub mod Steps
use siwx_go.Base.{
  ℕ, List, [], ◌∷◌, ◌++◌, Bytes, codes, Option, none, some, if◌then◌else◌, equal, Bool, true, false,
  ◌&&◌, leb, not,
}
use siwx_go.Go.Strings.{has_prefix, trim_prefix}
use siwx_go.Go.Time.{TimeLib, Layout, rfc3339, rfc3339_nano, millis_zone, millis_z, fraction_z}
use siwx_go.Siws.Errors.{
  Field, Result, ok, err, ◌>>=◌, ◌>>◌, unexpected_line, bad_timestamp, out_of_order,
}
use siwx_go.Siws.Fields.{guard}
use siwx_go.Siws.Message.{Message, label}

abbrev pub dash : Bytes
dash = codes "- "

-- The variables of the loop. `in_resources` says that control is in the inner loop, which reads the
-- lines that begin with a dash.
pub record Trailer : Type 0 where
  pub stage : ℕ
  pub in_resources : Bool
  pub message : Message

module _ (lib : TimeLib) where
  -- The loop of `parseTimestamp` over the layouts.
  unfoldable pub parse_layouts : List Layout → Bytes → Option ℕ
  parse_layouts [] s = none
  parse_layouts (l ∷ ls) s = elim (lib.parse l s) [ some t ↦ some t | none ↦ parse_layouts ls s ]

  -- `parseTimestamp`
  unfoldable pub parse_timestamp : Bytes → Option ℕ
  unfolding parse_layouts
  parse_timestamp = parse_layouts (millis_z ∷ fraction_z ∷ rfc3339_nano ∷ rfc3339 ∷ [])

  -- The value of `Issued At`.
  unfoldable pub parse_issued_at : Bytes → Result ℕ
  unfolding parse_layouts
  parse_issued_at s = elim (parse_layouts (rfc3339 ∷ millis_zone ∷ []) s) [
    | some t ↦ ok t
    | none ↦ err (bad_timestamp Field.issued_at)
  ]

  -- A timestamp field of rank `rank`: what the first two cases of the `switch` share.
  timed : Field → ℕ → Trailer → Bytes → (ℕ → Message) → Result Trailer
  unfolding guard
  timed f rank s l store = do
    guard (not (leb rank s.stage)) (out_of_order f)
    t ← elim (parse_timestamp (trim_prefix l (label f))) [
      | some t ↦ ok t
      | none ↦ err (bad_timestamp f)
    ]
    ok (record { stage = rank; in_resources = false; message = store t })

  -- The `switch` on a line.
  field_step : Trailer → Bytes → Result Trailer
  unfolding timed
  field_step s l =
      if has_prefix l (label Field.expiration_time)
      then timed Field.expiration_time 1 s l (λ t. record s.message { expiration_time = some t })
      else if has_prefix l (label Field.not_before)
      then timed Field.not_before 2 s l (λ t. record s.message { not_before = some t })
      else if has_prefix l (label Field.request_id)
      then (do
        guard (not (leb 3 s.stage)) (out_of_order Field.request_id)
        let id = trim_prefix l (label Field.request_id)
        ok (record {
          stage = 3;
          in_resources = false;
          message = record s.message { request_id = id };
        }))
      else if equal l (label Field.resources)
      then (do
        guard (not (leb 4 s.stage)) (out_of_order Field.resources)
        ok (record { stage = 4; in_resources = true; message = s.message }))
      else err unexpected_line

  -- One line, in the inner loop or in the outer one.
  unfoldable pub trailer_step : Trailer → Bytes → Result Trailer
  unfolding field_step
  trailer_step s l =
      if s.in_resources && has_prefix l dash
      then ok (record s {
        message = record s.message { resources = s.message.resources ++ trim_prefix l dash ∷ [] };
      })
      else field_step s l

  unfoldable pub run_trailer : Trailer → List Bytes → Result Trailer
  unfolding parse_timestamp
  run_trailer s [] = ok s
  run_trailer s (l ∷ ls) = do s' ← trailer_step s l; run_trailer s' ls
