-- ===== src/Siws/Base58/RoundTrip.antt =====
-- siws/base58.go: encoding against decoding.
use mathlib.Core.List.{reverse-append, map-append}
use siwx_go.Base.{
  ◌^◌, ℕ, zero, suc, ◌+◌, ◌*◌, ◌≤◌, ◌<◌, List, [], ◌∷◌, ◌++◌, map, ltb, length, replicate, Bytes,
  if◌then◌else◌, ◌≡◌, refl, sym, ap, ◌∙◌, arith, All, Bool-cases, inl, inr, reverse-replicate,
  map-reverse, length-append, length-map, length-replicate,
}
use siwx_go.Go.BigInt.{value_from, set_bytes, low_digits, to_bytes}
use siwx_go.Go.BigInt.Laws.{
  digits, drop_zeros, digits-value, value-digits, drop_zeros-digits, All-digits, length-digits,
  value_lt,
}
use siwx_go.Siws.Base58.{
  letter_of, accumulate, leading, decode_base58, encode_base58, max_base58_len,
}
use siwx_go.Go.Strings.Laws.{OneLine}
use siwx_go.Siws.Base58.Letters.{
  accumulate-Lacks, not_letters, zero_is_one, letter_of-ne-one, map-replicate, accumulate-map,
  accumulate-replicate, accumulate-Spells,
}
use siwx_go.Siws.Errors.{Result, ok, bind-eq-ok}

-- `to_bytes` writes digits in base 256.
to_bytes-digits : (n : ℕ) → to_bytes n ≡ digits 256 n
unfolding to_bytes digits
to_bytes-digits n = refl

encode-digits :
    (b : Bytes)
    → encode_base58 b ≡ replicate (leading 0 b) b'1' ++ map letter_of (digits 58 (set_bytes b))
unfolding encode_base58 digits
encode-digits b =
    simp (reverse-append, reverse-replicate)
      (ap (λ t. replicate (leading 0 b) b'1' ++ t)
        (sym (map-reverse letter_of (low_digits 58 (set_bytes b)))))

leading-drop_zeros : (ds : List ℕ) → replicate (leading 0 ds) 0 ++ drop_zeros ds ≡ ds
unfolding leading drop_zeros
leading-drop_zeros [] = refl
leading-drop_zeros (zero ∷ ds) = ap (λ t. 0 ∷ t) (leading-drop_zeros ds)
leading-drop_zeros (suc d ∷ ds) = ground arith

length-drop_zeros : (ds : List ℕ) → leading 0 ds + length (drop_zeros ds) ≡ length ds
unfolding leading drop_zeros
length-drop_zeros [] = omega arith
length-drop_zeros (zero ∷ ds) = omega (arith, length-drop_zeros ds)
length-drop_zeros (suc d ∷ ds) = ground arith

leading-replicate : (c k : ℕ) (s : Bytes) → leading c (replicate k c ++ s) ≡ k + leading c s
unfolding leading
leading-replicate c zero s = omega arith
leading-replicate c (suc k) s = ground (arith, leading-replicate c k s)

-- Digits with no zero in front are written with no '1' in front.
leading-map :
    (ds : List ℕ) → All (λ d. d < 58) ds → drop_zeros ds ≡ ds → leading b'1' (map letter_of ds) ≡ 0
unfolding leading
leading-map [] _ _ = refl
leading-map (zero ∷ ds) _ h =
    unfold drop_zeros in absurd (omega (arith, length-drop_zeros ds, ap (length {A = ℕ}) h))
leading-map (suc d ∷ ds) (hd, _) _ = ground (arith, letter_of-ne-one (suc d) (omega arith) hd)

leading_none : (ds : List ℕ) → drop_zeros ds ≡ ds → leading 0 ds ≡ 0
leading_none ds h = omega (arith, length-drop_zeros ds, ap (length {A = ℕ}) h)

leading-map_eq :
    (ds : List ℕ) → All (λ d. d < 58) ds → leading b'1' (map letter_of ds) ≡ leading 0 ds
unfolding leading
leading-map_eq [] _ = refl
leading-map_eq (zero ∷ ds) (_, hds) = ground (arith, leading-map_eq ds hds, zero_is_one)
leading-map_eq (suc d ∷ ds) (hd, _) = ground (arith, letter_of-ne-one (suc d) (omega arith) hd)

value_zeros : (k : ℕ) (ds : List ℕ) → value_from 256 0 (replicate k 0 ++ ds) ≡ value_from 256 0 ds
value_zeros zero ds = refl
value_zeros (suc k) ds = value_zeros k ds

-- What `decode_base58` returns, by its parts.
decode_parts :
    (s : Bytes) (n : ℕ)
    → length s ≤ max_base58_len
    → accumulate 0 s ≡ ok n
    → decode_base58 s ≡ ok (replicate (leading b'1' s) 0 ++ to_bytes n)
unfolding decode_base58
decode_parts s n l h = ground arith

abbrev pad : Bytes → ℕ → Result Bytes
pad s n =
    if ltb 0 (leading b'1' s)
    then ok (replicate (leading b'1' s) 0 ++ to_bytes n)
    else ok (to_bytes n)

parts_of_decode :
    (s b : Bytes)
    → decode_base58 s ≡ ok b
    → (n : ℕ) × (accumulate 0 s ≡ ok n) × (b ≡ replicate (leading b'1' s) 0 ++ to_bytes n)
unfolding decode_base58
parts_of_decode s b h = elim (Bool-cases (ltb max_base58_len (length s))) [
  | inl e ↦ absurd (cc (rw e at h))
  | inr e ↦
      let (n, read, rest) = bind-eq-ok (accumulate 0 s) (pad s) (rw e at h) in
      (n, read, ground arith)
]

length-encode : (b : Bytes) → All (λ c. c < 256) b → length (encode_base58 b) ≤ 2 * length b
length-encode b h =
    let n = set_bytes b in
    let rest = digits-value 256 (omega arith) b h in
    let exact = value-digits 256 (omega arith) n in
    let below = value_lt (digits 256 n) 0 (All-digits 256 (omega arith) n) in
    let short : n < 256 ^ length (digits 256 n) = omega (arith, below, exact) in
    let fits : n < 256 ^ length (drop_zeros b) = rw rest at short in
    rw (encode-digits b, length-append, length-replicate, length-map)
      (omega (arith, length-digits _ n fits, length-drop_zeros b))

-- A byte string of up to 64 bytes, such as a key, is read back from its base-58 text.
pub decode-encode :
    (b : Bytes) → All (λ c. c < 256) b → length b ≤ 64 → decode_base58 (encode_base58 b) ≡ ok b
decode-encode b h l =
    let n = set_bytes b in
    let ds = digits 58 n in
    let in_range = All-digits 58 (omega arith) n in
    let zeros = leading 0 b in
    let read : accumulate 0 (encode_base58 b) ≡ ok n =
      rw
        (
          encode-digits b,
          accumulate-replicate zeros (map letter_of ds),
          accumulate-map ds 0 in_range,
        )
        (ap ok (value-digits 58 (omega arith) n)) in
    let ones : leading b'1' (encode_base58 b) ≡ zeros = rw (encode-digits b) (
      omega (
        arith,
        leading-replicate b'1' zeros (map letter_of ds),
        leading-map ds in_range (drop_zeros-digits 58 (omega arith) n),
      )) in
    decode_parts (encode_base58 b) n (omega (arith, length-encode b h)) read
    ∙ rw (ones, to_bytes-digits n, digits-value 256 (omega arith) b h)
        (ap ok (leading-drop_zeros b))

-- A text that is accepted is the only spelling of the bytes that it stands for.
pub encode-decode : (s b : Bytes) → decode_base58 s ≡ ok b → encode_base58 b ≡ s
encode-decode s b h =
    let (n, read, e) = parts_of_decode s b h in
    let sp = accumulate-Spells s 0 n read in
    let k = leading b'1' s in
    let ds = sp.digits_of in
    let number : set_bytes b ≡ n =
      rw (e, value_zeros k) (rw (to_bytes-digits n) (value-digits 256 (omega arith) n)) in
    let zeros : leading 0 b ≡ k = rw e (
      rw to_bytes-digits (
        omega (
          arith,
          leading-replicate 0 k (digits 256 n),
          leading_none (digits 256 n) (drop_zeros-digits 256 (omega arith) n),
        ))) in
    let rest : digits 58 n ≡ drop_zeros ds =
      ap (digits 58) (sym sp.value) ∙ digits-value 58 (omega arith) ds sp.in_range in
    let same : k ≡ leading 0 ds =
      ap (leading b'1') (sym sp.spelling) ∙ leading-map_eq ds sp.in_range in
    rw (encode-digits b, zeros, number, rest, same)
      (ap (λ t. t ++ map letter_of (drop_zeros ds)) (sym (map-replicate (leading 0 ds)))
        ∙ sym (map-append letter_of (replicate (leading 0 ds) 0) (drop_zeros ds))
        ∙ ap (map letter_of) (leading-drop_zeros ds)
        ∙ sp.spelling)

-- An accepted text is one line.
pub OneLine-decode : (s b : Bytes) → decode_base58 s ≡ ok b → OneLine s
OneLine-decode s b h =
    let (n, read, _) = parts_of_decode s b h in
    (
      accumulate-Lacks b'\n' s 0 n not_letters.0 read,
      accumulate-Lacks b'\r' s 0 n not_letters.1 read,
    )
