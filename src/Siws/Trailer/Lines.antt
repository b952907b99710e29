-- ===== src/Siws/Trailer/Lines.antt =====
-- siws/parse.go: the lines of the optional fields, and the step that each of them takes.
use siwx_go.Base.{
  ℕ, ◌<◌, [], ◌∷◌, ◌++◌, List, map, Bytes, Option, none, some, equal_refl, true, false, leb, ◌≡◌,
  refl, ◌∙◌, arith, append-nil, append_assoc,
}
use siwx_go.Go.Strings.{has_prefix}
use siwx_go.Go.Strings.Laws.{has_prefix-append, trim_prefix-append}
use siwx_go.Go.Time.{TimeLib}
use siwx_go.Siws.Errors.{Field, ok}
use siwx_go.Siws.Message.{Message, label}
use siwx_go.Siws.Trailer.{dash, Trailer, parse_timestamp, timed, trailer_step, run_trailer}

module _ (lib : TimeLib) where
  -- An absent time, or one that is written without loss.
  abbrev pub IsExact? : Option ℕ → Type 0
  IsExact? none = Unit
  IsExact? (some t) = lib.is_exact t ≡ true

  abbrev pub time_lines : Field → Option ℕ → List Bytes
  time_lines f none = []
  time_lines f (some t) = (label f ++ lib.format t) ∷ []

abbrev pub request_lines : Bytes → List Bytes
request_lines [] = []
request_lines (c ∷ id) = (label Field.request_id ++ (c ∷ id)) ∷ []

abbrev pub resource_part : List Bytes → List Bytes
resource_part [] = []
resource_part (r ∷ rs) = label Field.resources ∷ map (λ t. dash ++ t) (r ∷ rs)

-- The lines behind the required fields.
abbrev pub trailer_lines : TimeLib → Message → List Bytes
trailer_lines lib m =
    time_lines lib Field.expiration_time m.expiration_time
    ++ (time_lines lib Field.not_before m.not_before
        ++ (request_lines m.request_id ++ resource_part m.resources))

-- A message with its required fields alone.
abbrev pub bare : Message → Message
bare m = record m { expiration_time = none; not_before = none; request_id = []; resources = [] }

-- No field's line begins with the label of an optional field in front of it.
label_ne_expiration_not_before :
    (v : Bytes) → has_prefix (label Field.not_before ++ v) (label Field.expiration_time) ≡ false
unfolding has_prefix label
label_ne_expiration_not_before v = refl

label_ne_expiration_request_id :
    (v : Bytes) → has_prefix (label Field.request_id ++ v) (label Field.expiration_time) ≡ false
unfolding has_prefix label
label_ne_expiration_request_id v = refl

label_ne_not_before_request_id :
    (v : Bytes) → has_prefix (label Field.request_id ++ v) (label Field.not_before) ≡ false
unfolding has_prefix label
label_ne_not_before_request_id v = refl

resources_distinct :
    (has_prefix (label Field.resources) (label Field.expiration_time) ≡ false)
    × (has_prefix (label Field.resources) (label Field.not_before) ≡ false)
    × (has_prefix (label Field.resources) (label Field.request_id) ≡ false)
unfolding has_prefix label
resources_distinct = (refl, refl, refl)

module _ (lib : TimeLib) where
  timed_line :
      (f : Field) (rank : ℕ) (s : Trailer) (v : Bytes) (t : ℕ) (store : ℕ → Message)
      → s.stage < rank
      → parse_timestamp lib v ≡ some t
      → timed lib f rank s (label f ++ v) store
        ≡ ok (record { stage = rank; in_resources = false; message = store t })
  unfolding timed
  timed_line f rank s v t store h e =
      let open_stage : leb rank s.stage ≡ false = ground arith in
      rw (open_stage, trim_prefix-append (label f) v, e)

  module _ (s : Trailer) (outer : s.in_resources ≡ false) where
    pub step_expiration :
        (v : Bytes) (t : ℕ)
        → s.stage < 1
        → parse_timestamp lib v ≡ some t
        → trailer_step lib s (label Field.expiration_time ++ v)
          ≡ ok (record {
            stage = 1;
            in_resources = false;
            message = record s.message { expiration_time = some t };
          })
    unfolding trailer_step
    step_expiration v t h e =
        rw (outer, has_prefix-append (label Field.expiration_time) v)
          (timed_line Field.expiration_time 1 s v t _ h e)

    pub step_not_before :
        (v : Bytes) (t : ℕ)
        → s.stage < 2
        → parse_timestamp lib v ≡ some t
        → trailer_step lib s (label Field.not_before ++ v)
          ≡ ok (record {
            stage = 2;
            in_resources = false;
            message = record s.message { not_before = some t };
          })
    unfolding trailer_step
    step_not_before v t h e =
        rw (outer, label_ne_expiration_not_before v, has_prefix-append (label Field.not_before) v)
          (timed_line Field.not_before 2 s v t _ h e)

    pub step_request_id :
        (id : Bytes)
        → s.stage < 3
        → trailer_step lib s (label Field.request_id ++ id)
          ≡ ok (record {
            stage = 3;
            in_resources = false;
            message = record s.message { request_id = id };
          })
    unfolding trailer_step
    step_request_id id h =
        let open_stage : leb 3 s.stage ≡ false = ground arith in
        rw (
          outer,
          label_ne_expiration_request_id id,
          label_ne_not_before_request_id id,
          has_prefix-append (label Field.request_id) id,
          open_stage,
          trim_prefix-append (label Field.request_id) id,
        )

    pub step_resources :
        s.stage < 4
        → trailer_step lib s (label Field.resources)
          ≡ ok (record { stage = 4; in_resources = true; message = s.message })
    unfolding trailer_step
    step_resources h =
        let open_stage : leb 4 s.stage ≡ false = ground arith in
        rw (
          outer,
          resources_distinct.0,
          resources_distinct.1,
          resources_distinct.2,
          equal_refl (label Field.resources),
          open_stage,
        )

  step_dash :
      (r : Bytes) (m : Message)
      → trailer_step lib (record { stage = 4; in_resources = true; message = m }) (dash ++ r)
        ≡ ok (record {
          stage = 4;
          in_resources = true;
          message = record m { resources = m.resources ++ r ∷ [] };
        })
  unfolding trailer_step
  step_dash r m = rw (has_prefix-append dash r, trim_prefix-append dash r)

  pub run_resources :
      (rs : List Bytes) (m : Message)
      → run_trailer lib
          (record { stage = 4; in_resources = true; message = m })
          (map (λ r. dash ++ r) rs)
        ≡ ok (record {
          stage = 4;
          in_resources = true;
          message = record m { resources = m.resources ++ rs };
        })
  unfolding run_trailer
  run_resources [] m = rw append-nil
  run_resources (r ∷ rs) m =
      rw (step_dash r m)
        (run_resources rs (record m { resources = m.resources ++ r ∷ [] }) ∙ rw append_assoc)
