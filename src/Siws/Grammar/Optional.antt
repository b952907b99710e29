-- ===== src/Siws/Grammar/Optional.antt =====
-- siws/parse.go: the loop over the optional fields against their grammar.
use siwx_go.Base.{
  ℕ, ◌≤◌, [], ◌∷◌, ◌++◌, List, map, Bytes, some, true, false, ◌≡◌, refl, ap, sym, ◌∙◌, arith,
  append-nil, append_assoc,
}
use siwx_go.Go.Time.{TimeLib}
use siwx_go.Siws.Errors.{Field, ok, bind-eq-ok}
use siwx_go.Siws.Message.{Message, label}
use siwx_go.Siws.Trailer.{dash, Trailer, parse_timestamp, trailer_step, run_trailer}
use siwx_go.Siws.Trailer.Steps.{
  Stepped, dashed, expires, starts, requests, opens, trailer_step-Stepped,
}
use siwx_go.Siws.Grammar.{
  ResourceBlock, no_resources, resource_list, RequestBlock, no_request, request, StartBlock,
  no_start, start, OptionalFields, no_expiration, expiration,
}

module _ (lib : TimeLib) where
  run_cons :
      (s : Trailer) (l : Bytes) (ls : List Bytes) (t : Trailer)
      → run_trailer lib s (l ∷ ls) ≡ ok t
      → (s' : Trailer) × Stepped lib s l s' × (run_trailer lib s' ls ≡ ok t)
  unfolding run_trailer
  run_cons s l ls t h =
      let (s', stepped, rest) = bind-eq-ok (trailer_step lib s l) (λ u. run_trailer lib u ls) h in
      (s', trailer_step-Stepped lib s l s' stepped, rest)

  run_nil : (s t : Trailer) → run_trailer lib s [] ≡ ok t → t.message ≡ s.message
  unfolding run_trailer
  run_nil s t h = ground arith

  -- Behind "Resources:" there are dashed lines only.
  record Dashed (ls : List Bytes) (m m' : Message) : Type 0 where
    items : List Bytes
    lines_are : ls ≡ map (λ r. dash ++ r) items
    stores : m' ≡ record m { resources = m.resources ++ items }

  Dashed-nil : (m m' : Message) → m' ≡ m → Dashed [] m m'
  Dashed-nil m m' e = record {
    items = [];
    lines_are = refl;
    stores = e ∙ ap (λ (r : List Bytes). record m { resources = r }) (sym (append-nil m.resources));
  }

  Dashed-cons :
      (l r : Bytes) (ls : List Bytes) (m m' : Message)
      → l ≡ dash ++ r
      → Dashed ls (record m { resources = m.resources ++ r ∷ [] }) m'
      → Dashed (l ∷ ls) m m'
  Dashed-cons l r ls m m' e d = record {
    items = r ∷ d.items;
    lines_are = λ i. e i ∷ d.lines_are i;
    stores =
        d.stores
        ∙ ap (λ (q : List Bytes). record m { resources = q })
            (append_assoc m.resources (r ∷ []) d.items);
  }

  sound-Dashed :
      (ls : List Bytes) (m : Message) (t : Trailer)
      → run_trailer lib (record { stage = 4; in_resources = true; message = m }) ls ≡ ok t
      → Dashed ls m t.message
  sound-Dashed [] m t h = Dashed-nil m t.message (run_nil _ t h)
  sound-Dashed (l ∷ ls) m t h =
      let (s', st, rest) =
        run_cons (record { stage = 4; in_resources = true; message = m }) l ls t h in
      elim st [
        | dashed r i e q ↦
            Dashed-cons l r ls m t.message e
              (sound-Dashed ls (record m { resources = m.resources ++ r ∷ [] }) t (rw q at rest))
        | expires v u e lt p q ↦ absurd (omega arith)
        | starts v u e lt p q ↦ absurd (omega arith)
        | requests id e lt q ↦ absurd (omega arith)
        | opens e lt q ↦ absurd (omega arith)
      ]

  opened :
      (l : Bytes) (ls : List Bytes) (m : Message) (s' t : Trailer)
      → l ≡ label Field.resources
      → s' ≡ record { stage = 4; in_resources = true; message = m }
      → run_trailer lib s' ls ≡ ok t
      → ResourceBlock m (l ∷ ls) t.message
  opened l ls m s' t e q h =
      let d = sound-Dashed ls m t (rw q at h) in
      resource_list d.items (λ i. e i ∷ d.lines_are i) d.stores

  module _ (t : Trailer) where
    sound_resources :
        (ls : List Bytes) (s : Trailer)
        → s.in_resources ≡ false
        → 3 ≤ s.stage
        → run_trailer lib s ls ≡ ok t
        → ResourceBlock s.message ls t.message
    sound_resources [] s outer k h = no_resources refl (run_nil s t h)
    sound_resources (l ∷ ls) s outer k h =
        let (s', st, rest) = run_cons s l ls t h in
        elim st [
          | dashed r i e q ↦ absurd (cc)
          | expires v u e lt p q ↦ absurd (omega arith)
          | starts v u e lt p q ↦ absurd (omega arith)
          | requests id e lt q ↦ absurd (omega arith)
          | opens e lt q ↦ opened l ls s.message s' t e q rest
        ]

    requested :
        (l id : Bytes) (ls : List Bytes) (m : Message) (s' : Trailer)
        → l ≡ label Field.request_id ++ id
        → s' ≡ record { stage = 3; in_resources = false; message = record m { request_id = id } }
        → run_trailer lib s' ls ≡ ok t
        → RequestBlock m (l ∷ ls) t.message
    requested l id ls m s' e q h =
        request id ls (λ i. e i ∷ ls) (sound_resources ls _ refl (omega arith) (rw q at h))

    sound_request :
        (ls : List Bytes) (s : Trailer)
        → s.in_resources ≡ false
        → 2 ≤ s.stage
        → run_trailer lib s ls ≡ ok t
        → RequestBlock s.message ls t.message
    sound_request [] s outer k h = no_request (no_resources refl (run_nil s t h))
    sound_request (l ∷ ls) s outer k h =
        let (s', st, rest) = run_cons s l ls t h in
        elim st [
          | dashed r i e q ↦ absurd (cc)
          | expires v u e lt p q ↦ absurd (omega arith)
          | starts v u e lt p q ↦ absurd (omega arith)
          | requests id e lt q ↦ requested l id ls s.message s' e q rest
          | opens e lt q ↦ no_request (opened l ls s.message s' t e q rest)
        ]

    started :
        (l v : Bytes) (u : ℕ) (ls : List Bytes) (m : Message) (s' : Trailer)
        → l ≡ label Field.not_before ++ v
        → parse_timestamp lib v ≡ some u
        → s'
          ≡ record { stage = 2; in_resources = false; message = record m { not_before = some u } }
        → run_trailer lib s' ls ≡ ok t
        → StartBlock lib m (l ∷ ls) t.message
    started l v u ls m s' e p q h =
        start v u ls (λ i. e i ∷ ls) p (sound_request ls _ refl (omega arith) (rw q at h))

    sound_start :
        (ls : List Bytes) (s : Trailer)
        → s.in_resources ≡ false
        → 1 ≤ s.stage
        → run_trailer lib s ls ≡ ok t
        → StartBlock lib s.message ls t.message
    sound_start [] s outer k h = no_start (no_request (no_resources refl (run_nil s t h)))
    sound_start (l ∷ ls) s outer k h =
        let (s', st, rest) = run_cons s l ls t h in
        elim st [
          | dashed r i e q ↦ absurd (cc)
          | expires v u e lt p q ↦ absurd (omega arith)
          | starts v u e lt p q ↦ started l v u ls s.message s' e p q rest
          | requests id e lt q ↦ no_start (requested l id ls s.message s' e q rest)
          | opens e lt q ↦ no_start (no_request (opened l ls s.message s' t e q rest))
        ]

    pub sound_optional :
        (ls : List Bytes) (s : Trailer)
        → s.in_resources ≡ false
        → run_trailer lib s ls ≡ ok t
        → OptionalFields lib s.message ls t.message
    sound_optional [] s outer h =
        no_expiration (no_start (no_request (no_resources refl (run_nil s t h))))
    sound_optional (l ∷ ls) s outer h =
        let (s', st, rest) = run_cons s l ls t h in
        elim st [
          | dashed r i e q ↦ absurd (cc)
          | expires v u e lt p q ↦
              expiration v u ls (λ i. e i ∷ ls) p
                (sound_start ls _ refl (omega arith) (rw q at rest))
          | starts v u e lt p q ↦ no_expiration (started l v u ls s.message s' e p q rest)
          | requests id e lt q ↦ no_expiration (no_start (requested l id ls s.message s' e q rest))
          | opens e lt q ↦
              no_expiration (no_start (no_request (opened l ls s.message s' t e q rest)))
        ]
