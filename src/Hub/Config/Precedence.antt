-- ===== src/Hub/Config/Precedence.antt =====
-- examples/hub/config.go: which value of a variable counts.
use siwx_go.Base.{
  List, [], ◌∷◌, Bytes, Bool, false, not, ◌&&◌, ◌||◌, Option, none, some, if◌then◌else◌, equal,
  equal_iff, ◌≡◌, ◌≢◌, refl, ap, ◌∙◌, sym, inl, inr, Bool-cases, Option-cases,
}
use siwx_go.Go.Maps.{lookup, lookup-insert, lookup-insert_other}
use siwx_go.Go.Strings.{contains_byte}
use siwx_go.Go.Strconv.{ℤ}
use siwx_go.Go.Strconv.RoundTrip.{int_text, IsInt64, atoi-int_text, int_text_ne}
use siwx_go.Hub.Config.{Environment, getenv, setenv, env, binding, load_line, load_dot_env, env_int}

-- A pair that `os.Setenv` takes.
abbrev can_set : Bytes → Bytes → Bool
can_set key v =
    not (equal key [] || contains_byte key b'=' || contains_byte key 0 || contains_byte v 0)

-- The value that a line has for the variable.
abbrev line_value : Bytes → Bytes → Option Bytes
line_value k text = elim (binding text) [
  | none ↦ none
  | some (key, v) ↦ if equal key k && can_set key v then some v else none
]

abbrev pub or_else : Option Bytes → Option Bytes → Option Bytes
or_else (some v) o = some v
or_else none o = o

-- The first line of the file that has a value for the variable.
abbrev pub file_value : Bytes → List Bytes → Option Bytes
file_value k [] = none
file_value k (text ∷ texts) = or_else (line_value k text) (file_value k texts)

or_else_assoc : (a b c : Option Bytes) → or_else (or_else a b) c ≡ or_else a (or_else b c)
or_else_assoc none b c = refl
or_else_assoc (some a) b c = refl

or_else-none : (a : Option Bytes) → or_else a none ≡ a
or_else-none none = refl
or_else-none (some a) = refl

lookup-setenv :
    (vars : Environment) (key v k : Bytes)
    → lookup vars key ≡ none
    → lookup (setenv vars key v) k
      ≡ or_else (lookup vars k) (if equal key k && can_set key v then some v else none)
unfolding setenv
lookup-setenv vars key v k absent =
    elim (Bool-cases
      (equal key [] || contains_byte key b'=' || contains_byte key 0 || contains_byte v 0)) [
        | inl e ↦ elim (Bool-cases (equal key k)) [
          | inl f ↦ rw (setenv, e, f) (sym (or_else-none _))
          | inr f ↦ rw (setenv, e, f) (sym (or_else-none _))
        ]
        | inr e ↦ elim (Bool-cases (equal key k)) [
          | inl f ↦
              let same = (equal_iff key k).0 f in
              rw (setenv, e, f) (rw (← same) (lookup-insert vars key v ∙ rw absent refl))
          | inr f ↦ rw (setenv, e, f) (lookup-insert_other vars key k v f ∙ sym (or_else-none _))
        ]
      ]

-- A line for a variable that is set changes no value.
line_taken :
    (vars : Environment) (key v k x : Bytes)
    → lookup vars key ≡ some x
    → or_else (lookup vars k) (if equal key k && can_set key v then some v else none)
      ≡ lookup vars k
line_taken vars key v k x f = elim (Bool-cases (equal key k)) [
  | inl e ↦ let held : lookup vars k ≡ some x = rw (← (equal_iff key k).0 e) f in rw held refl
  | inr e ↦ rw e (or_else-none _)
]

lookup-load_line :
    (vars : Environment) (text k : Bytes)
    → lookup (load_line vars text) k ≡ or_else (lookup vars k) (line_value k text)
unfolding load_line
lookup-load_line vars text k = elim (Option-cases (binding text)) [
  | inl e ↦ rw (load_line, line_value, e) (sym (or_else-none _))
  | inr ((key, v), e) ↦ elim (Option-cases (lookup vars key)) [
    | inl f ↦ rw (load_line, line_value, e, f) (lookup-setenv vars key v k f)
    | inr (x, f) ↦ rw (load_line, line_value, e, f) (sym (line_taken vars key v k x f))
  ]
]

lookup-load_dot_env :
    (vars : Environment) (texts : List Bytes) (k : Bytes)
    → lookup (load_dot_env vars texts) k ≡ or_else (lookup vars k) (file_value k texts)
unfolding load_dot_env
lookup-load_dot_env vars [] k = sym (or_else-none _)
lookup-load_dot_env vars (text ∷ texts) k =
    lookup-load_dot_env (load_line vars text) texts k
    ∙ ap (λ o. or_else o (file_value k texts)) (lookup-load_line vars text k)
    ∙ or_else_assoc (lookup vars k) (line_value k text) (file_value k texts)

-- A variable that is set keeps its value through every line of the file.
pub load_dot_env-keeps :
    (vars : Environment) (texts : List Bytes) (k w : Bytes)
    → lookup vars k ≡ some w
    → lookup (load_dot_env vars texts) k ≡ some w
load_dot_env-keeps vars texts k w h =
    lookup-load_dot_env vars texts k ∙ ap (λ o. or_else o (file_value k texts)) h

-- What is left of a value that may be missing or empty.
abbrev pub non_empty : Option Bytes → Bytes → Bytes
non_empty none fallback = fallback
non_empty (some v) fallback = if equal v [] then fallback else v

env-lookup :
    (vars : Environment) (k fallback : Bytes)
    → env vars k fallback ≡ non_empty (lookup vars k) fallback
unfolding env getenv equal
env-lookup vars k fallback = elim (Option-cases (lookup vars k)) [
  | inl e ↦ rw (getenv, e) refl
  | inr (v, e) ↦ rw (getenv, e) refl
]

equal_ne : (v : Bytes) → v ≢ [] → equal v [] ≡ false
unfolding equal
equal_ne [] h = absurd (h refl)
equal_ne (c ∷ v) h = refl

-- A setting is the value that the process was given, even an empty one; where it was given none, that
-- of the first line of the file that has a value for it; and where this is missing or empty, the
-- default.
pub env-load_dot_env :
    (vars : Environment) (texts : List Bytes) (k fallback : Bytes)
    → env (load_dot_env vars texts) k fallback
      ≡ non_empty (or_else (lookup vars k) (file_value k texts)) fallback
env-load_dot_env vars texts k fallback =
    env-lookup (load_dot_env vars texts) k fallback
    ∙ ap (λ o. non_empty o fallback) (lookup-load_dot_env vars texts k)

-- A setting that holds an integer of 64 bits in decimal digits, with a minus sign where it is below
-- zero, is read as this integer, whether the process or the file gives it.
pub env_int-int_text :
    (vars : Environment) (texts : List Bytes) (k : Bytes) (z fallback : ℤ)
    → or_else (lookup vars k) (file_value k texts) ≡ some (int_text z)
    → IsInt64 z
    → env_int (load_dot_env vars texts) k fallback ≡ z
unfolding env_int getenv
env_int-int_text vars texts k z fallback h b =
    let e = lookup-load_dot_env vars texts k ∙ h in
    rw (getenv, e, equal_ne (int_text z) (int_text_ne z), atoi-int_text z b) refl
