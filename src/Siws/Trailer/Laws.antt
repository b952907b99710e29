-- ===== src/Siws/Trailer/Laws.antt =====
-- siws/parse.go: the loop over the optional fields on the lines that `String` writes.
use siwx_go.Base.{
  ℕ, ◌<◌, [], ◌∷◌, ◌++◌, List, Bytes, Option, none, some, true, false, ◌≡◌, refl, ap, ◌∙◌, arith,
}
use siwx_go.Go.Time.{TimeLib, TimeLaws, Layout}
use siwx_go.Siws.Errors.{Field, Result, ok, ◌>>=◌}
use siwx_go.Siws.Message.{Message}
use siwx_go.Siws.Trailer.{Trailer, parse_timestamp, parse_issued_at, run_trailer}
use siwx_go.Siws.Trailer.Lines.{
  IsExact?, bare, request_lines, resource_part, run_resources, step_expiration, step_not_before,
  step_request_id, step_resources, time_lines, trailer_lines,
}

module _ (lib : TimeLib) (laws : TimeLaws lib) where
  pub parse_issued_at-format :
      (t : ℕ) → lib.is_exact t ≡ true → parse_issued_at lib (lib.format t) ≡ ok t
  unfolding parse_issued_at
  parse_issued_at-format t e = ground (arith, laws.parse-format Layout.rfc3339 t e)

  parse_timestamp-format :
      (t : ℕ) → lib.is_exact t ≡ true → parse_timestamp lib (lib.format t) ≡ some t
  unfolding parse_timestamp
  parse_timestamp-format t e = ground (arith, laws.parse-format Layout.millis_z t e)

module _ (lib : TimeLib) (laws : TimeLaws lib) where
  -- The lines of one kind take the loop from `s` to `t`, whatever follows.
  record Leads (s : Trailer) (ls : List Bytes) (m : Message) (below : ℕ) : Type 0 where
    target : Trailer
    runs : (rest : List Bytes) → run_trailer lib s (ls ++ rest) ≡ run_trailer lib target rest
    outside : target.in_resources ≡ false
    holds : target.message ≡ m
    stage_lt : target.stage < below

  module _ (s : Trailer) (outer : s.in_resources ≡ false) where
    lead_expiration :
        (o : Option ℕ)
        → IsExact? lib o
        → s.stage < 1
        → s.message.expiration_time ≡ none
        → Leads s
            (time_lines lib Field.expiration_time o)
            (record s.message { expiration_time = o })
            2
    unfolding run_trailer
    lead_expiration none _ h e = record {
      target = s;
      runs = λ rest. refl;
      outside = outer;
      holds = λ i. record s.message { expiration_time = e i };
      stage_lt = omega arith;
    }
    lead_expiration (some t) x h e = record {
      target = record {
        stage = 1;
        in_resources = false;
        message = record s.message { expiration_time = some t };
      };
      runs = λ rest.
          rw (step_expiration lib s outer (lib.format t) t h (parse_timestamp-format lib laws t x));
      outside = refl;
      holds = refl;
      stage_lt = omega arith;
    }

    lead_not_before :
        (o : Option ℕ)
        → IsExact? lib o
        → s.stage < 2
        → s.message.not_before ≡ none
        → Leads s (time_lines lib Field.not_before o) (record s.message { not_before = o }) 3
    unfolding run_trailer
    lead_not_before none _ h e = record {
      target = s;
      runs = λ rest. refl;
      outside = outer;
      holds = λ i. record s.message { not_before = e i };
      stage_lt = omega arith;
    }
    lead_not_before (some t) x h e = record {
      target = record {
        stage = 2;
        in_resources = false;
        message = record s.message { not_before = some t };
      };
      runs = λ rest.
          rw (step_not_before lib s outer (lib.format t) t h (parse_timestamp-format lib laws t x));
      outside = refl;
      holds = refl;
      stage_lt = omega arith;
    }

    lead_request_id :
        (id : Bytes)
        → s.stage < 3
        → s.message.request_id ≡ []
        → Leads s (request_lines id) (record s.message { request_id = id }) 4
    unfolding run_trailer
    lead_request_id [] h e = record {
      target = s;
      runs = λ rest. refl;
      outside = outer;
      holds = λ i. record s.message { request_id = e i };
      stage_lt = omega arith;
    }
    lead_request_id (c ∷ id) h e = record {
      target = record {
        stage = 3;
        in_resources = false;
        message = record s.message { request_id = c ∷ id };
      };
      runs = λ rest. rw (step_request_id lib s outer (c ∷ id) h);
      outside = refl;
      holds = refl;
      stage_lt = omega arith;
    }

    end_resources :
        (rs : List Bytes)
        → s.stage < 4
        → s.message.resources ≡ []
        → (run_trailer lib s (resource_part rs) >>= λ t. ok t.message)
          ≡ ok (record s.message { resources = rs })
    unfolding run_trailer
    end_resources [] h e = λ i. ok (record s.message { resources = e i })
    end_resources (r ∷ rs) h e =
        rw (step_resources lib s outer h, run_resources lib (r ∷ rs) s.message, e)

  -- From the required fields of a message, its other lines give the whole message.
  pub run_trailer_lines :
      (m : Message)
      → IsExact? lib m.expiration_time
      → IsExact? lib m.not_before
      → (run_trailer lib
            (record { stage = 0; in_resources = false; message = bare m })
            (trailer_lines lib m)
          >>= λ t. ok t.message)
        ≡ ok m
  run_trailer_lines m xe xn =
      let s0 : Trailer = record { stage = 0; in_resources = false; message = bare m } in
      let l1 = lead_expiration s0 refl m.expiration_time xe (omega arith) refl in
      let m1 : l1.target.message ≡ record (bare m) { expiration_time = m.expiration_time } =
        l1.holds in
      let l2 =
        lead_not_before l1.target l1.outside m.not_before xn l1.stage_lt
          (ap (λ (t : Message). t.not_before) m1) in
      let m2 : l2.target.message ≡ record m { request_id = []; resources = [] } =
        l2.holds ∙ ap (λ (t : Message). record t { not_before = m.not_before }) m1 in
      let l3 =
        lead_request_id l2.target l2.outside m.request_id l2.stage_lt
          (ap (λ (t : Message). t.request_id) m2) in
      let m3 : l3.target.message ≡ record m { resources = [] } =
        l3.holds ∙ ap (λ (t : Message). record t { request_id = m.request_id }) m2 in
      ap (λ (r : Result Trailer). r >>= λ t. ok t.message) (l1.runs _ ∙ l2.runs _ ∙ l3.runs _)
      ∙ end_resources l3.target l3.outside m.resources l3.stage_lt
          (ap (λ (t : Message). t.resources) m3)
      ∙ ap (λ (t : Message). ok (record t { resources = m.resources })) m3
