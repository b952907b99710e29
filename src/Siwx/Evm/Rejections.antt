-- ===== src/Siwx/Evm/Rejections.antt =====
-- siwx/evm/adapter.go and siwx/evm/erc6492.go: the errors of `verifySignature`.
use siwx_go.Base.{
  [], ◌∷◌, ◌++◌, Bytes, Bool, false, ◌==◌, Option, none, some, length, ◌≡◌, ◌≢◌, ◌⊎◌, refl, sym,
  arith, inl, inr, Bool-cases, Option-cases,
}
use siwx_go.Siwx.Errors.{Sentinel, Error, Outcome, returned, failed}
use siwx_go.Siwx.Evm.Calldata.{
  erc1271_magic_value, has_erc6492_suffix, right_sized_word, erc1271_calldata,
}
use siwx_go.Siwx.Evm.Chain.{Answer, answered, refused, ChainClient, Resolver, Libs}
use siwx_go.Siwx.Evm.Routing.{IsKeySigned}
use siwx_go.Siwx.Evm.Verdicts.{Answer-cases, IsWrapped, IsWrapped-iff, magic_iff, one_byte_iff}
use siwx_go.Siwx.Evm.Signature.{
  is_magic_value, is_one_byte, judge, verify_eip191, hash_of, validate_erc6492, client_of,
  deployless, verify_deployed, verify_plain, verify_wrapped, verify_signature,
}

abbrev rejected : Error → Outcome (Unit {0})
rejected e = failed e

failed_inj : {e f : Error} → rejected e ≡ failed f → e ≡ f
failed_inj h = cc

returned_not : {e : Error} → ¬ (returned tt ≡ rejected e)
returned_not h = cc

judge-some :
    (test : Bytes → Bool) (a : Answer) (e : Error)
    → judge test a ≡ failed e
    → ((x : Error) × ((a ≡ refused x) × (e ≡ Sentinel.rpc ∷ x)))
      ⊎ ((ret : Bytes) × ((a ≡ answered ret)
            × ((test ret ≡ false) × (e ≡ Sentinel.contract_validation_failed ∷ []))))
unfolding judge
judge-some test (refused x) e h = inl (x, (refl, cc))
judge-some test (answered ret) e h = elim (Bool-cases (test ret)) [
  | inl t ↦ absurd (returned_not (rw (judge, t) at h))
  | inr t ↦ inr (ret, (refl, (t, cc)))
]

module _ {M : Type 0} (lib : Libs M) (parsed : M) (sig : Bytes) where
  -- Where no contract is asked: there is no client, or no code at the address.
  pub data IsAccount (client : Option ChainClient) : Type 0 where
    unreachable : client ≡ none → IsAccount client
    empty :
        (c : ChainClient)
        → client ≡ some c
        → c.code_at (lib.address parsed) ≡ answered []
        → IsAccount client

  -- Why a signature is rejected, with the error that says so.
  pub data Rejected (client : Option ChainClient) (e : Error) : Type 0 where
    wrong_key :
        ¬ IsWrapped sig
        → IsAccount client
        → ¬ IsKeySigned lib parsed sig
        → e ≡ Sentinel.bad_signature ∷ []
        → Rejected client e
    no_code_lookup :
        (c : ChainClient) (x : Error)
        → client ≡ some c
        → c.code_at (lib.address parsed) ≡ refused x
        → e ≡ Sentinel.rpc ∷ x
        → Rejected client e
    no_call :
        (c : ChainClient) (x : Error)
        → client ≡ some c
        → c.call_contract (lib.address parsed) (erc1271_calldata (hash_of lib parsed) sig)
          ≡ refused x
        → e ≡ Sentinel.rpc ∷ x
        → Rejected client e
    contract_denies :
        (c : ChainClient) (ret : Bytes)
        → ¬ IsWrapped sig
        → client ≡ some c
        → c.call_contract (lib.address parsed) (erc1271_calldata (hash_of lib parsed) sig)
          ≡ answered ret
        → ((rest : Bytes) → ret ≢ erc1271_magic_value ++ rest)
        → e ≡ Sentinel.contract_validation_failed ∷ []
        → Rejected client e
    not_capable :
        IsWrapped sig
        → deployless client ≡ none
        → e ≡ Sentinel.contract_wallet_unsupported ∷ []
        → Rejected client e
    not_packed :
        IsWrapped sig
        → lib.pack (lib.address parsed) (right_sized_word (hash_of lib parsed)) sig ≡ none
        → e ≡ Sentinel.contract_validation_failed ∷ []
        → Rejected client e
    no_creation :
        (call : Bytes → Answer) (encoded : Bytes) (x : Error)
        → deployless client ≡ some call
        → call (lib.validator_code ++ encoded) ≡ refused x
        → e ≡ Sentinel.rpc ∷ x
        → Rejected client e
    validator_denies :
        (call : Bytes → Answer) (encoded ret : Bytes)
        → IsWrapped sig
        → deployless client ≡ some call
        → call (lib.validator_code ++ encoded) ≡ answered ret
        → ret ≢ 0x01 ∷ []
        → e ≡ Sentinel.contract_validation_failed ∷ []
        → Rejected client e

  Rejected-key :
      (client : Option ChainClient) (e : Error)
      → ¬ IsWrapped sig
      → IsAccount client
      → verify_eip191 lib parsed sig ≡ failed e
      → Rejected client e
  unfolding verify_eip191
  Rejected-key client e plain account h =
      wrong_key plain account (λ k. returned_not (rw (verify_eip191, k) at h)) (ground arith)

  Rejected-code :
      (c : ChainClient) (code : Bytes) (e : Error)
      → ¬ IsWrapped sig
      → c.code_at (lib.address parsed) ≡ answered code
      → verify_deployed lib c parsed sig code ≡ failed e
      → Rejected (some c) e
  unfolding verify_deployed
  Rejected-code c [] e plain n h = Rejected-key (some c) e plain (empty c refl n) h
  Rejected-code c (x ∷ code) e plain n h =
      let long : (length (x ∷ code) == 0) ≡ false = ground arith in
      let called =
        c.call_contract (lib.address parsed) (erc1271_calldata (hash_of lib parsed) sig) in
      elim (judge-some is_magic_value called e (rw (verify_deployed, long) at h)) [
        | inl (y, (a, same)) ↦ no_call c y refl a same
        | inr (ret, (a, (t, same))) ↦
            contract_denies c ret plain refl a (λ rest m. cc (t, (magic_iff ret).1 (rest, m))) same
      ]

  Rejected-plain :
      (client : Option ChainClient) (e : Error)
      → ¬ IsWrapped sig
      → verify_plain lib client parsed sig ≡ failed e
      → Rejected client e
  unfolding verify_plain
  Rejected-plain none e plain h = Rejected-key none e plain (unreachable refl) h
  Rejected-plain (some c) e plain h = elim (Answer-cases (c.code_at (lib.address parsed))) [
    | inl (code, a) ↦ Rejected-code c code e plain a (rw (verify_plain, a) at h)
    | inr (x, a) ↦
        let h' : rejected (Sentinel.rpc ∷ x) ≡ failed e = rw (verify_plain, a) at h in
        no_code_lookup c x refl a (sym (failed_inj h'))
  ]

  Rejected-wrapped :
      (client : Option ChainClient) (e : Error)
      → IsWrapped sig
      → verify_wrapped lib client parsed sig ≡ failed e
      → Rejected client e
  unfolding verify_wrapped validate_erc6492
  Rejected-wrapped client e w h = elim (Option-cases (deployless client)) [
    | inl d ↦
        let h' : rejected (Sentinel.contract_wallet_unsupported ∷ []) ≡ failed e =
          rw (verify_wrapped, d) at h in
        not_capable w d (sym (failed_inj h'))
    | inr (call, d) ↦
        elim (Option-cases
          (lib.pack (lib.address parsed) (right_sized_word (hash_of lib parsed)) sig)) [
            | inl p ↦
                let h' : rejected (Sentinel.contract_validation_failed ∷ []) ≡ failed e =
                  rw (verify_wrapped, d, validate_erc6492, p) at h in
                not_packed w p (sym (failed_inj h'))
            | inr (encoded, p) ↦
                elim (judge-some is_one_byte (call (lib.validator_code ++ encoded)) e
                  (rw (verify_wrapped, d, validate_erc6492, p) at h)) [
                    | inl (y, (a, same)) ↦ no_creation call encoded y d a same
                    | inr (ret, (a, (t, same))) ↦
                        validator_denies call encoded ret w d a
                          (λ m. cc (t, (one_byte_iff ret).1 m)) same
                  ]
          ]
  ]

  -- Every error of `verifySignature` has its own reason: `ErrBadSignature` means that no contract was
  -- to be asked and the key is wrong; `ErrContractValidationFailed` that a contract or the validator
  -- answered and denied, or the arguments could not be packed; `ErrContractWalletUnsupported` that
  -- a wrapped signature met no client able to check it; and an error of a call comes wrapped behind
  -- `ErrRPC`.
  pub verify_signature-Rejected :
      (resolver : Option Resolver) (e : Error)
      → verify_signature lib resolver parsed sig ≡ failed e
      → Rejected (client_of lib resolver parsed) e
  unfolding verify_signature
  verify_signature-Rejected resolver e h = elim (Bool-cases (has_erc6492_suffix sig)) [
    | inl w ↦
        Rejected-wrapped (client_of lib resolver parsed) e ((IsWrapped-iff sig).0 w)
          (rw (verify_signature, w) at h)
    | inr n ↦
        Rejected-plain (client_of lib resolver parsed) e (λ w. cc (n, (IsWrapped-iff sig).1 w))
          (rw (verify_signature, n) at h)
  ]
