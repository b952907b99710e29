-- ===== src/Siwx/Evm/Verdicts.antt =====
-- siwx/evm/adapter.go and siwx/evm/erc6492.go: the tests of a signature and of an answer.
use siwx_go.Base.{
  [], ◌∷◌, ◌++◌, Bytes, Bool, true, false, ◌==◌, leb, le→leb, equal_iff, length, take, drop,
  take-append-drop, ◌≡◌, ◌≢◌, ◌↔◌, ◌⊎◌, refl, arith, inl, inr, Bool-cases,
}
use siwx_go.Go.Strings.{has_suffix, trim_suffix}
use siwx_go.Go.Strings.Laws.{has_suffix-append, trim_suffix_append}
use siwx_go.Siwx.Errors.{Error, Outcome, returned, failed}
use siwx_go.Siwx.Evm.Calldata.{erc1271_magic_value, erc6492_magic, has_erc6492_suffix}
use siwx_go.Siwx.Evm.Chain.{Answer, answered, refused}
use siwx_go.Siwx.Evm.Signature.{is_magic_value, is_one_byte, judge}

pub Answer-cases : (a : Answer) → ((b : Bytes) × (a ≡ answered b)) ⊎ ((e : Error) × (a ≡ refused e))
Answer-cases (answered b) = inl (b, refl)
Answer-cases (refused e) = inr (e, refl)

abbrev accepted : Outcome (Unit {0})
accepted = returned tt

pub failed_not : {e : Error} → ¬ (failed e ≡ accepted)
failed_not h = cc

-- A signature that ERC-6492 wraps ends in its magic bytes.
abbrev pub IsWrapped : Bytes → Type 0
IsWrapped sig = (body : Bytes) × (sig ≡ body ++ erc6492_magic)

pub IsWrapped-iff : (sig : Bytes) → (has_erc6492_suffix sig ≡ true) ↔ IsWrapped sig
unfolding has_erc6492_suffix has_suffix
IsWrapped-iff sig = (
  λ h. (trim_suffix sig erc6492_magic, trim_suffix_append sig erc6492_magic h),
  λ (body, e). rw e (has_suffix-append body erc6492_magic),
)

pub magic_iff :
    (ret : Bytes)
    → (is_magic_value ret ≡ true) ↔ ((rest : Bytes) × (ret ≡ erc1271_magic_value ++ rest))
unfolding is_magic_value
magic_iff ret = (
  λ h. (
    drop 4 ret,
    ground (arith, equal_iff (take 4 ret) erc1271_magic_value, take-append-drop 4 ret),
  ),
  λ (rest, e).
      let long : leb 4 (length (erc1271_magic_value ++ rest)) ≡ true = le→leb _ _ (omega arith) in
      rw (e, is_magic_value, long) refl,
)

pub one_byte_iff : (ret : Bytes) → (is_one_byte ret ≡ true) ↔ (ret ≡ 0x01 ∷ [])
unfolding is_one_byte
one_byte_iff ret = equal_iff ret (0x01 ∷ [])

pub not_wrapped : (sig : Bytes) → ¬ IsWrapped sig → has_erc6492_suffix sig ≡ false
not_wrapped sig n = elim (Bool-cases (has_erc6492_suffix sig)) [
  | inl e ↦ absurd (n ((IsWrapped-iff sig).0 e))
  | inr e ↦ e
]

pub has_length : (b : Bytes) → b ≢ [] → (length b == 0) ≡ false
has_length [] n = absurd (n refl)
has_length (c ∷ b) n = ground arith

pub judge-returned :
    (test : Bytes → Bool) (a : Answer)
    → judge test a ≡ returned tt
    → (ret : Bytes) × ((a ≡ answered ret) × (test ret ≡ true))
unfolding judge
judge-returned test (refused e) h = absurd cc
judge-returned test (answered ret) h = (ret, (refl, ground arith))

pub returned-judge :
    (test : Bytes → Bool) (ret : Bytes) → test ret ≡ true → judge test (answered ret) ≡ returned tt
unfolding judge
returned-judge test ret h = rw h refl
