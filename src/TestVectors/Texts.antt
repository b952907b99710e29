-- ===== src/TestVectors/Texts.antt =====
-- internal/testvectors/load.go: the names of the sentinels, and the time of reference.
use siwx_go.Base.{
  ℕ, List, [], ◌∷◌, Bytes, All, none, some, ◌≡◌, ◌↔◌, ◌⊎◌, refl, sym, ap, ◌∙◌, inl, inr,
  Option-cases, Bool-cases, equal, equal_iff, codes, arith,
}
use siwx_go.Go.Maps.{lookup}
use siwx_go.Go.Time.{TimeLib, rfc3339_nano, rfc3339, millis_z}
use siwx_go.Siws.Errors.{Sentinel}
use siwx_go.Siws.Trailer.{parse_layouts}
use siwx_go.TestVectors.{sentinel_map, parse_time}

-- A sentinel as the files write it: the name of its variable in the package siws.
unfoldable pub name_of : Sentinel → Bytes
name_of Sentinel.malformed = codes "ErrMalformed"
name_of Sentinel.bad_signature = codes "ErrBadSignature"
name_of Sentinel.expired = codes "ErrExpired"
name_of Sentinel.not_yet_valid = codes "ErrNotYetValid"
name_of Sentinel.domain_mismatch = codes "ErrDomainMismatch"
name_of Sentinel.nonce_mismatch = codes "ErrNonceMismatch"

some_inj : {A : Type 0} {a b : A} → some a ≡ some b → a ≡ b
some_inj h = cc

-- One entry of the map.
lookup_cons :
    (k : Bytes) (s : Sentinel) (m : List (Bytes × Sentinel)) (x : Bytes) {t : Sentinel}
    → lookup ((k, s) ∷ m) x ≡ some t
    → ((x ≡ k) × (t ≡ s)) ⊎ (lookup m x ≡ some t)
unfolding lookup
lookup_cons k s m x h = elim (Bool-cases (equal k x)) [
  | inl e ↦ inl (sym ((equal_iff k x).0 e), sym (some_inj (rw (lookup, e) at h)))
  | inr e ↦ inr (rw e at h)
]

-- Every entry of the map is a sentinel under its name.
abbrev AreNames : List (Bytes × Sentinel) → Type 0
AreNames m = All (λ (q : Bytes × Sentinel). q.0 ≡ name_of q.1) m

pub lookup-AreNames :
    (m : List (Bytes × Sentinel)) (x : Bytes) (t : Sentinel)
    → AreNames m
    → lookup m x ≡ some t
    → x ≡ name_of t
unfolding lookup
lookup-AreNames [] x t a h = absurd (cc h)
lookup-AreNames ((k, s) ∷ m) x t (a, rest) h = elim (lookup_cons k s m x h) [
  | inl (e, f) ↦ e ∙ a ∙ ap name_of (sym f)
  | inr f ↦ lookup-AreNames m x t rest f
]

pub map_AreNames : AreNames sentinel_map
unfolding name_of
map_AreNames = (refl, (refl, (refl, (refl, (refl, (refl, tt))))))

pub lookup-name_of : (s : Sentinel) → lookup sentinel_map (name_of s) ≡ some s
unfolding lookup name_of equal
lookup-name_of Sentinel.malformed = refl
lookup-name_of Sentinel.bad_signature = refl
lookup-name_of Sentinel.expired = refl
lookup-name_of Sentinel.not_yet_valid = refl
lookup-name_of Sentinel.domain_mismatch = refl
lookup-name_of Sentinel.nonce_mismatch = refl

-- The instant of a text, in the first of three layouts that reads it.
pub data InstantOf (time : TimeLib) (s : Bytes) (t : ℕ) : Type 0 where
  with_fraction : time.parse rfc3339_nano s ≡ some t → InstantOf time s t
  in_seconds : time.parse rfc3339_nano s ≡ none → time.parse rfc3339 s ≡ some t → InstantOf time s t
  in_millis :
      time.parse rfc3339_nano s ≡ none
      → time.parse rfc3339 s ≡ none
      → time.parse millis_z s ≡ some t
      → InstantOf time s t

pub parse_time_iff :
    (time : TimeLib) (s : Bytes) (t : ℕ) → (parse_time time s ≡ some t) ↔ InstantOf time s t
unfolding parse_time parse_layouts
parse_time_iff time s t = (reads, read)
  where
    reads : parse_time time s ≡ some t → InstantOf time s t
    reads h = elim (Option-cases (time.parse rfc3339_nano s)) [
      | inr (u, e) ↦ InstantOf.with_fraction (ground (arith, e))
      | inl e ↦ elim (Option-cases (time.parse rfc3339 s)) [
        | inr (u, f) ↦ InstantOf.in_seconds e (ground (arith, e, f))
        | inl f ↦ InstantOf.in_millis e f (ground (arith, Option-cases (time.parse millis_z s)))
      ]
    ]

    read : InstantOf time s t → parse_time time s ≡ some t
    read (InstantOf.with_fraction e) = rw (parse_time, parse_layouts, e)
    read (InstantOf.in_seconds e f) = rw (parse_time, parse_layouts, e, f)
    read (InstantOf.in_millis e f g) = rw (parse_time, parse_layouts, e, f, g)
