-- ===== src/Siws/Trailer/Steps.antt =====
-- One round of the loop over the optional fields, taken apart: which line it read, and what it stored.
use siwx_go.Base.{
  ℕ, ◌<◌, [], ◌∷◌, ◌++◌, Bytes, some, equal, equal_iff, ◌&&◌, &&-split, true, false, ◌≡◌, arith,
  Option-cases, Bool-cases, inl, inr,
}
use siwx_go.Go.Strings.{has_prefix, trim_prefix}
use siwx_go.Go.Strings.Laws.{append-trim_prefix}
use siwx_go.Go.Time.{TimeLib}
use siwx_go.Siws.Errors.{Field, ok}
use siwx_go.Siws.Message.{Message, label}
use siwx_go.Siws.Trailer.{dash, Trailer, parse_timestamp, timed, field_step, trailer_step}

module _ (lib : TimeLib) where
  -- The line that took the loop from `s` to `s'`.
  pub data Stepped (s : Trailer) (l : Bytes) (s' : Trailer) : Type 0 where
    dashed :
        (r : Bytes)
        → s.in_resources ≡ true
        → l ≡ dash ++ r
        → s' ≡ record s { message = record s.message { resources = s.message.resources ++ r ∷ [] } }
        → Stepped s l s'
    expires :
        (v : Bytes) (t : ℕ)
        → l ≡ label Field.expiration_time ++ v
        → s.stage < 1
        → parse_timestamp lib v ≡ some t
        → s' ≡ record {
          stage = 1;
          in_resources = false;
          message = record s.message { expiration_time = some t };
        }
        → Stepped s l s'
    starts :
        (v : Bytes) (t : ℕ)
        → l ≡ label Field.not_before ++ v
        → s.stage < 2
        → parse_timestamp lib v ≡ some t
        → s' ≡ record {
          stage = 2;
          in_resources = false;
          message = record s.message { not_before = some t };
        }
        → Stepped s l s'
    requests :
        (id : Bytes)
        → l ≡ label Field.request_id ++ id
        → s.stage < 3
        → s' ≡ record {
          stage = 3;
          in_resources = false;
          message = record s.message { request_id = id };
        }
        → Stepped s l s'
    opens :
        l ≡ label Field.resources
        → s.stage < 4
        → s' ≡ record { stage = 4; in_resources = true; message = s.message }
        → Stepped s l s'

  timed-ok :
      (f : Field) (rank : ℕ) (s s' : Trailer) (l : Bytes) (store : ℕ → Message)
      → timed lib f rank s l store ≡ ok s'
      → (t : ℕ) × (s.stage < rank)
        × (parse_timestamp lib (trim_prefix l (label f)) ≡ some t)
        × (s' ≡ record { stage = rank; in_resources = false; message = store t })
  unfolding timed
  timed-ok f rank s s' l store h =
      elim (Option-cases (parse_timestamp lib (trim_prefix l (label f)))) [
        | inl e ↦ absurd (ground arith)
        | inr (t, e) ↦ (t, ground arith, e, ground arith)
      ]

  field_step-Stepped :
      (s : Trailer) (l : Bytes) (s' : Trailer) → field_step lib s l ≡ ok s' → Stepped s l s'
  unfolding field_step
  field_step-Stepped s l s' h = elim (Bool-cases (has_prefix l (label Field.expiration_time))) [
    | inl p1 ↦
        let (t, lt, e, q) = timed-ok Field.expiration_time 1 s s' l _ (rw p1 at h) in
        expires (trim_prefix l (label Field.expiration_time)) t (append-trim_prefix l _ p1) lt e q
    | inr n1 ↦ elim (Bool-cases (has_prefix l (label Field.not_before))) [
      | inl p2 ↦
          let (t, lt, e, q) = timed-ok Field.not_before 2 s s' l _ (rw (n1, p2) at h) in
          starts (trim_prefix l (label Field.not_before)) t (append-trim_prefix l _ p2) lt e q
      | inr n2 ↦ elim (Bool-cases (has_prefix l (label Field.request_id))) [
        | inl p3 ↦
            requests (trim_prefix l (label Field.request_id)) (append-trim_prefix l _ p3)
              (ground arith) (ground arith)
        | inr n3 ↦ elim (Bool-cases (equal l (label Field.resources))) [
          | inl p4 ↦
              opens ((equal_iff l (label Field.resources)).0 p4) (ground arith) (ground arith)
          | inr n4 ↦ absurd (ground arith)
        ]
      ]
    ]
  ]

  -- Every round that does not fail is one of the five.
  pub trailer_step-Stepped :
      (s : Trailer) (l : Bytes) (s' : Trailer) → trailer_step lib s l ≡ ok s' → Stepped s l s'
  unfolding trailer_step
  trailer_step-Stepped s l s' h = elim (Bool-cases (s.in_resources && has_prefix l dash)) [
    | inl p ↦
        let (inside, prefixed) = &&-split s.in_resources (has_prefix l dash) p in
        dashed (trim_prefix l dash) inside (append-trim_prefix l dash prefixed) (ground arith)
    | inr n ↦ field_step-Stepped s l s' (rw n at h)
  ]
