-- ===== src/TestVectors/Loads.antt =====
-- internal/testvectors/load.go: what a file must hold, and the corpus that it gives.
use mathlib.Core.Path.{subst}
use siwx_go.Base.{
  List, [], ◌∷◌, ◌++◌, Bytes, Bool, true, false, Option, none, some, ◌≡◌, ◌↔◌, refl, sym, ap, ◌∙◌,
  inl, inr, Option-cases, append-nil, append_assoc,
}
use siwx_go.Go.Base64.{std_decode}
use siwx_go.Go.Maps.{lookup, insert}
use siwx_go.Go.Time.{TimeLib}
use siwx_go.Siws.Errors.{Sentinel}
use siwx_go.TestVectors.Texts.{
  name_of, lookup-AreNames, map_AreNames, lookup-name_of, InstantOf, parse_time_iff,
}
use siwx_go.TestVectors.{
  Key, Vector, Corpus, RawKey, RawEntry, RawFile, Loaded, loaded, failed, ◌>>=◌, or_fail, bad_json,
  bad_reference_time, bad_seed, bad_message, bad_signature, LoadError, sentinel_map, add_keys,
  expected, to_vector, add_vectors, parse_time, parse,
}

-- The expected error of a vector: a valid one has none, an invalid one has the sentinel of the name.
abbrev ExpectedIs : Bool → RawEntry → Vector → Type 0
ExpectedIs true e v = v.expected_error ≡ none
ExpectedIs false e v = (s : Sentinel) × (e.expected_error ≡ name_of s) × (v.expected_error ≡ some s)

-- `v` is what an entry says.
pub record IsVectorOf (valid : Bool) (e : RawEntry) (v : Vector) : Type 0 where
  pub name_is : v.name ≡ e.name
  pub key_is : v.key ≡ e.key
  pub message_is : std_decode e.message_b64 ≡ some v.message
  pub signature_is : std_decode e.signature_b64 ≡ some v.signature
  pub expected_is : ExpectedIs valid e v

-- Entry by entry.
pub data Each (valid : Bool) : List RawEntry → List Vector → Type 0 where
  stop : Each valid [] []
  next :
      (e : RawEntry) (v : Vector) (es : List RawEntry) (vs : List Vector)
      → IsVectorOf valid e v
      → Each valid es vs
      → Each valid (e ∷ es) (v ∷ vs)

-- A key with its seed.
abbrev pub IsKeyOf : RawKey → Key → Type 0
IsKeyOf r k =
    (k.id ≡ r.id)
    × (k.public_key_base58 ≡ r.public_key_base58)
    × (std_decode r.private_seed_b64 ≡ some k.private_seed)

-- The map of the keys: a later key takes the place of an earlier one with its identifier.
pub data KeysOf : List (Bytes × Key) → List RawKey → List (Bytes × Key) → Type 0 where
  stop : (keys : List (Bytes × Key)) → KeysOf keys [] keys
  next :
      (keys all : List (Bytes × Key)) (r : RawKey) (k : Key) (rs : List RawKey)
      → IsKeyOf r k
      → KeysOf (insert keys r.id k) rs all
      → KeysOf keys (r ∷ rs) all

bind-loaded :
    {A B : Type 0} (m : Loaded A) (k : A → Loaded B) {b : B}
    → (m >>= k) ≡ loaded b
    → (a : A) × (m ≡ loaded a) × (k a ≡ loaded b)
bind-loaded (loaded a) k h = (a, refl, h)
bind-loaded (failed e) k h = cc

or_fail-loaded :
    {A : Type 0} (e : LoadError) (o : Option A) {a : A} → or_fail e o ≡ loaded a → o ≡ some a
or_fail-loaded e none h = cc
or_fail-loaded e (some x) h = cc

expected_iff :
    (valid : Bool) (e : RawEntry) (v : Vector)
    → (expected e valid ≡ loaded v.expected_error) ↔ ExpectedIs valid e v
unfolding expected
expected_iff true e v = (λ h. cc, λ h. cc)
expected_iff false e v = (
  λ h. elim (Option-cases (lookup sentinel_map e.expected_error)) [
    | inl f ↦ absurd (cc (rw (expected, f) at h))
    | inr (s, f) ↦ (
      s,
      lookup-AreNames sentinel_map e.expected_error s map_AreNames f,
      cc (rw (expected, f) at h),
    )
  ],
  λ (s, e1, e2). rw (expected, ap (lookup sentinel_map) e1 ∙ lookup-name_of s) (ap loaded (sym e2)),
)

to_vector_iff :
    (valid : Bool) (e : RawEntry) (v : Vector)
    → (to_vector e valid ≡ loaded v) ↔ IsVectorOf valid e v
unfolding to_vector
to_vector_iff valid e v = (
  reads,
  λ w.
      rw (to_vector, w.message_is, w.signature_is, (expected_iff valid e v).1 w.expected_is)
        (λ i. loaded (record v { name = sym w.name_is i; key = sym w.key_is i })),
)
  where
    reads : to_vector e valid ≡ loaded v → IsVectorOf valid e v
    reads h =
        let (msg, e1, h1) =
          bind-loaded (or_fail (bad_message e.name) (std_decode e.message_b64)) _ h in
        let (sig, e2, h2) =
          bind-loaded (or_fail (bad_signature e.name) (std_decode e.signature_b64)) _ h1 in
        let (s, e3, h3) = bind-loaded (expected e valid) _ h2 in
        let made : v ≡ record {
          name = e.name;
          key = e.key;
          message = msg;
          signature = sig;
          expected_error = s;
        } =
          cc in
        let given = or_fail-loaded (bad_message e.name) _ e1 in
        let signed = or_fail-loaded (bad_signature e.name) _ e2 in
        record {
          name_is = ap (λ (x : Vector). x.name) made;
          key_is = ap (λ (x : Vector). x.key) made;
          message_is = given ∙ sym (ap (λ (x : Vector). some x.message) made);
          signature_is = signed ∙ sym (ap (λ (x : Vector). some x.signature) made);
          expected_is =
              (expected_iff valid e v).0
                (e3 ∙ sym (ap (λ (x : Vector). loaded x.expected_error) made));
        }

append_cons :
    (vs : List Vector) (v : Vector) (ws : List Vector) → (vs ++ v ∷ []) ++ ws ≡ vs ++ v ∷ ws
append_cons vs v ws = append_assoc vs (v ∷ []) ws

add_vectors-Each :
    (valid : Bool) (vs : List Vector) (es : List RawEntry) (all : List Vector)
    → add_vectors valid vs es ≡ loaded all
    → (ws : List Vector) × (all ≡ vs ++ ws) × Each valid es ws
unfolding add_vectors
add_vectors-Each valid vs [] all h =
    let same : all ≡ vs = cc in ([], same ∙ sym (append-nil vs), stop)
add_vectors-Each valid vs (e ∷ es) all h =
    let (v, e1, h1) = bind-loaded (to_vector e valid) _ h in
    let (ws, f, r) = add_vectors-Each valid (vs ++ v ∷ []) es all h1 in
    (v ∷ ws, f ∙ append_cons vs v ws, next e v es ws ((to_vector_iff valid e v).0 e1) r)

Each-add_vectors :
    (valid : Bool) (es : List RawEntry) (ws : List Vector)
    → Each valid es ws
    → (vs : List Vector) → add_vectors valid vs es ≡ loaded (vs ++ ws)
unfolding add_vectors
Each-add_vectors valid _ _ stop vs = ap loaded (sym (append-nil vs))
Each-add_vectors valid _ _ (next e v es ws w r) vs =
    rw (add_vectors, (to_vector_iff valid e v).1 w)
      (Each-add_vectors valid es ws r (vs ++ v ∷ []) ∙ ap loaded (append_cons vs v ws))

add_keys-KeysOf :
    (keys : List (Bytes × Key)) (rs : List RawKey) (all : List (Bytes × Key))
    → add_keys keys rs ≡ loaded all
    → KeysOf keys rs all
unfolding add_keys
add_keys-KeysOf keys [] all h =
    let same : all ≡ keys = cc in
    subst (λ (m : List (Bytes × Key)). KeysOf keys [] m) (sym same) (stop keys)
add_keys-KeysOf keys (r ∷ rs) all h =
    let (seed, e1, h1) =
      bind-loaded (or_fail (bad_seed r.id) (std_decode r.private_seed_b64)) _ h in
    let k : Key = record {
      id = r.id;
      public_key_base58 = r.public_key_base58;
      private_seed = seed;
    } in
    next keys all r k rs (refl, refl, or_fail-loaded (bad_seed r.id) _ e1)
      (add_keys-KeysOf (insert keys r.id k) rs all h1)

KeysOf-add_keys :
    (keys : List (Bytes × Key)) (rs : List RawKey) (all : List (Bytes × Key))
    → KeysOf keys rs all
    → add_keys keys rs ≡ loaded all
unfolding add_keys
KeysOf-add_keys _ _ _ (KeysOf.stop keys) = refl
KeysOf-add_keys _ _ _ (KeysOf.next keys all r k rs (id_is, text_is, seed_is) rest) =
    rw (add_keys, seed_is)
      ((λ i.
          add_keys
            (insert keys r.id (record k { id = sym id_is i; public_key_base58 = sym text_is i }))
            rs)
        ∙ KeysOf-add_keys (insert keys r.id k) rs all rest)

module _ (unmarshal : Bytes → Option RawFile) (time : TimeLib) where
  -- The corpus of a file.
  pub record IsCorpusOf (raw : Bytes) (c : Corpus) : Type 0 where
    pub file : RawFile
    pub is_json : unmarshal raw ≡ some file
    pub time_is : InstantOf time file.reference_time c.reference_time
    pub keys_are : KeysOf [] file.keys c.keys
    pub valid_are : Each true file.valid c.valid
    pub invalid_are : Each false file.invalid c.invalid

  parse-IsCorpusOf :
      (raw : Bytes) (c : Corpus) → parse unmarshal time raw ≡ loaded c → IsCorpusOf raw c
  unfolding parse
  parse-IsCorpusOf raw c h =
      let (f, e1, h1) = bind-loaded (or_fail bad_json (unmarshal raw)) _ h in
      let (t, e2, h2) =
        bind-loaded (or_fail bad_reference_time (parse_time time f.reference_time)) _ h1 in
      let (keys, e3, h3) = bind-loaded (add_keys [] f.keys) _ h2 in
      let (valid, e4, h4) = bind-loaded (add_vectors true [] f.valid) _ h3 in
      let (invalid, e5, h5) = bind-loaded (add_vectors false [] f.invalid) _ h4 in
      let made : record { reference_time = t; keys = keys; valid = valid; invalid = invalid } ≡ c =
        cc in
      let (vs, same_valid, each_valid) = add_vectors-Each true [] f.valid valid e4 in
      let (ws, same_invalid, each_invalid) = add_vectors-Each false [] f.invalid invalid e5 in
      subst (IsCorpusOf raw) made (record {
        file = f;
        is_json = or_fail-loaded bad_json (unmarshal raw) e1;
        time_is =
            (parse_time_iff time f.reference_time t).0 (or_fail-loaded bad_reference_time _ e2);
        keys_are = add_keys-KeysOf [] f.keys keys e3;
        valid_are = subst (Each true f.valid) (sym same_valid) each_valid;
        invalid_are = subst (Each false f.invalid) (sym same_invalid) each_invalid;
      })

  -- `parse` loads exactly the files of which every part can be read: JSON with a time of reference,
  -- keys with a seed, and entries with a message and a signature in base-64. It gives their corpus:
  -- the vectors stand in the order of the entries, the valid ones with no expected error, each
  -- invalid one with the sentinel that its text names, and of two keys with one identifier the later
  -- counts.
  pub parse_iff :
      (raw : Bytes) (c : Corpus) → (parse unmarshal time raw ≡ loaded c) ↔ IsCorpusOf raw c
  unfolding parse
  parse_iff raw c = (
    parse-IsCorpusOf raw c,
    λ w.
        rw
          (
            parse,
            w.is_json,
            (parse_time_iff time w.file.reference_time c.reference_time).1 w.time_is,
            KeysOf-add_keys [] w.file.keys c.keys w.keys_are,
            Each-add_vectors true w.file.valid c.valid w.valid_are [],
            Each-add_vectors false w.file.invalid c.invalid w.invalid_are [],
          )
          refl,
  )
