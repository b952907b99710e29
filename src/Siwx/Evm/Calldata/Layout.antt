-- ===== src/Siwx/Evm/Calldata/Layout.antt =====
-- siwx/evm/adapter.go: the calldata read as the ABI lays it out, `isValidSignature(bytes32,bytes)`.
use siwx_go.Base.{
  ℕ, zero, suc, ◌+◌, ◌-◌, ◌%◌, ◌^◌, ◌<◌, ◌≤◌, [], ◌∷◌, ◌++◌, Bytes, length, length-append,
  length-replicate, take, drop, take_at, drop_at, append-nil, replicate, ◌≡◌, refl, sym, ap, ◌∙◌,
  arith,
}
use siwx_go.Go.BigInt.{set_bytes}
use siwx_go.Siwx.Evm.Calldata.{
  erc1271_selector, right_sized_word, uint256_word, padded_sig_len, erc1271_calldata,
}

pub uint256_word_value : (n : ℕ) → set_bytes (uint256_word n) ≡ n % 2 ^ 32
unfolding uint256_word
uint256_word_value n = omega arith

pub length-uint256_word : (n : ℕ) → length (uint256_word n) ≡ 32
unfolding uint256_word
length-uint256_word n = refl

pub right_sized_word_32 : (b : Bytes) → length b ≡ 32 → right_sized_word b ≡ b
unfolding right_sized_word
right_sized_word_32 b h =
    let whole : take 32 b ≡ b = ap (take 32) (sym (append-nil b)) ∙ take_at 32 b [] h in
    rw (h, whole) (append-nil b)

-- 32 bytes of the calldata.
abbrev pub word_at : ℕ → Bytes → Bytes
word_at k calldata = take 32 (drop k calldata)

-- The five fields, where they stand.
pub record IsLaidOut (hash sig calldata : Bytes) : Type 0 where
  pub selector : take 4 calldata ≡ erc1271_selector
  pub hash_is : word_at 4 calldata ≡ hash
  pub offset_is : set_bytes (word_at 36 calldata) ≡ 64
  pub length_is : set_bytes (word_at 68 calldata) ≡ length sig
  pub sig_is : take (length sig) (drop 100 calldata) ≡ sig
  pub whole_words : (length calldata - 4) % 32 ≡ 0
  pub is_long : 100 + length sig ≤ length calldata

take_more : (n : ℕ) (xs ys : Bytes) → n ≤ length xs → take n (xs ++ ys) ≡ take n xs
take_more zero xs ys h = refl
take_more (suc n) [] ys h = absurd (omega arith)
take_more (suc n) (x ∷ xs) ys h = ap (λ t. x ∷ t) (take_more n xs ys (omega arith))

-- What stands in front stays where it is.
stays :
    (k n : ℕ) (xs ys : Bytes) → k + n ≤ length xs → take n (drop k (xs ++ ys)) ≡ take n (drop k xs)
stays zero n xs ys h = take_more n xs ys (omega arith)
stays (suc k) n [] ys h = absurd (omega arith)
stays (suc k) n (x ∷ xs) ys h = stays k n xs ys (omega arith)

-- A field that stands behind `front`.
field :
    (k n : ℕ) (front x : Bytes) → length front ≡ k → length x ≡ n → take n (drop k (front ++ x)) ≡ x
field k n front x hk hn =
    let none_left : k - length front ≡ 0 = omega arith in
    ap (take n) (drop_at k front x (omega arith) ∙ ap (λ j. drop j x) none_left)
    ∙ ap (take n) (sym (append-nil x))
    ∙ take_at n x [] hn

module _ (head hash offset len sig pad : Bytes) (head_4 : length head ≡ 4)
    (hash_32 : length hash ≡ 32) (offset_32 : length offset ≡ 32) (len_32 : length len ≡ 32) where
  length_1 : length (head ++ hash) ≡ 36
  length_1 = omega (arith, length-append head hash)

  length_2 : length (head ++ hash ++ offset) ≡ 68
  length_2 = omega (arith, length_1, length-append (head ++ hash) offset)

  length_3 : length (head ++ hash ++ offset ++ len) ≡ 100
  length_3 = omega (arith, length_2, length-append (head ++ hash ++ offset) len)

  length_4 : length (head ++ hash ++ offset ++ len ++ sig) ≡ 100 + length sig
  length_4 = omega (arith, length_3, length-append (head ++ hash ++ offset ++ len) sig)

  length_5 : length (head ++ hash ++ offset ++ len ++ sig ++ pad) ≡ 100 + length sig + length pad
  length_5 = omega (arith, length_4, length-append (head ++ hash ++ offset ++ len ++ sig) pad)

  -- A field of the head.
  in_front :
      (k n : ℕ)
      → k + n ≤ 100
      → take n (drop k (head ++ hash ++ offset ++ len ++ sig ++ pad))
        ≡ take n (drop k (head ++ hash ++ offset ++ len))
  in_front k n h =
      stays k n (head ++ hash ++ offset ++ len ++ sig) pad (omega (arith, length_4))
      ∙ stays k n (head ++ hash ++ offset ++ len) sig (omega (arith, length_3))

  at_4 : word_at 4 (head ++ hash ++ offset ++ len ++ sig ++ pad) ≡ hash
  at_4 =
      in_front 4 32 (omega arith)
      ∙ stays 4 32 (head ++ hash ++ offset) len (omega (arith, length_2))
      ∙ stays 4 32 (head ++ hash) offset (omega (arith, length_1))
      ∙ field 4 32 head hash head_4 hash_32

  at_36 : word_at 36 (head ++ hash ++ offset ++ len ++ sig ++ pad) ≡ offset
  at_36 =
      in_front 36 32 (omega arith)
      ∙ stays 36 32 (head ++ hash ++ offset) len (omega (arith, length_2))
      ∙ field 36 32 (head ++ hash) offset length_1 offset_32

  at_68 : word_at 68 (head ++ hash ++ offset ++ len ++ sig ++ pad) ≡ len
  at_68 = in_front 68 32 (omega arith) ∙ field 68 32 (head ++ hash ++ offset) len length_2 len_32

  at_100 : take (length sig) (drop 100 (head ++ hash ++ offset ++ len ++ sig ++ pad)) ≡ sig
  at_100 =
      stays 100 (length sig) (head ++ hash ++ offset ++ len ++ sig) pad (omega (arith, length_4))
      ∙ field 100 (length sig) (head ++ hash ++ offset ++ len) sig length_3 refl

pub erc1271_calldata-IsLaidOut :
    (hash sig : Bytes)
    → length hash ≡ 32
    → length sig < 2 ^ 32
    → IsLaidOut hash sig (erc1271_calldata hash sig)
unfolding erc1271_calldata
erc1271_calldata-IsLaidOut hash sig sized short =
    let pad : Bytes = replicate (padded_sig_len sig - length sig) 0 in
    let nul : ℕ = 0 in
    let o = uint256_word 64 in
    let l = uint256_word (length sig) in
    let ho = length-uint256_word 64 in
    let hl = length-uint256_word (length sig) in
    let total = length_5 erc1271_selector hash o l sig pad refl sized ho hl in
    let padding : length pad ≡ padded_sig_len sig - length sig =
      length-replicate (padded_sig_len sig - length sig) nul in
    rw (erc1271_calldata, right_sized_word_32 hash sized)
      (record {
        selector = refl;
        hash_is = at_4 erc1271_selector hash o l sig pad refl sized ho hl;
        offset_is =
            ap set_bytes (at_36 erc1271_selector hash o l sig pad refl sized ho hl)
            ∙ uint256_word_value 64;
        length_is =
            ap set_bytes (at_68 erc1271_selector hash o l sig pad refl sized ho hl)
            ∙ uint256_word_value (length sig)
            ∙ omega arith;
        sig_is = at_100 erc1271_selector hash o l sig pad refl sized ho hl;
        whole_words = omega (arith, total, padding);
        is_long = omega (arith, total);
      })
