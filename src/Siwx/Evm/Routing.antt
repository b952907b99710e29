-- ===== src/Siwx/Evm/Routing.antt =====
-- siwx/evm/adapter.go and siwx/evm/erc6492.go: the signatures that `verifySignature` accepts.
use siwx_go.Base.{
  [], ◌∷◌, ◌++◌, Bytes, codes, true, false, ◌==◌, Option, none, some, length, ◌≡◌, ◌≢◌, ◌↔◌, refl,
  ap, ◌∙◌, arith, inl, inr, Bool-cases, Option-cases,
}
use siwx_go.Go.Hex.{hex_encode}
use siwx_go.Siwx.Errors.{returned}
use siwx_go.Siwx.Evm.Calldata.{
  erc1271_magic_value, has_erc6492_suffix, right_sized_word, erc1271_calldata,
}
use siwx_go.Siwx.Evm.Chain.{Answer, answered, ChainClient, Resolver, Libs}
use siwx_go.Siwx.Evm.Signature.{
  is_magic_value, is_one_byte, verify_eip191, hash_of, validate_erc6492, client_of, deployless,
  verify_deployed, verify_plain, verify_wrapped, verify_signature,
}
use siwx_go.Siwx.Evm.Verdicts.{
  Answer-cases, failed_not, IsWrapped, IsWrapped-iff, magic_iff, one_byte_iff, not_wrapped,
  has_length, judge-returned, returned-judge,
}

module _ {M : Type 0} (lib : Libs M) where
  -- The key that signed the message is the address's own.
  abbrev pub IsKeySigned : M → Bytes → Type 0
  IsKeySigned parsed sig = lib.verify_eip191 parsed (codes "0x" ++ hex_encode sig) ≡ some true

  pub eip191_iff :
      (parsed : M) (sig : Bytes)
      → (verify_eip191 lib parsed sig ≡ returned tt) ↔ IsKeySigned parsed sig
  unfolding verify_eip191
  eip191_iff parsed sig =
      ground (arith, Option-cases (lib.verify_eip191 parsed (codes "0x" ++ hex_encode sig)))

  -- What accepts a signature, by the client that the resolver gives for the chain of the message.
  pub data Accepted (parsed : M) (sig : Bytes) (client : Option ChainClient) : Type 0 where
    -- no client, and no wrapping: the key signed
    offline : ¬ IsWrapped sig → client ≡ none → IsKeySigned parsed sig → Accepted parsed sig client
    -- a client, and an address without code: the key signed
    codeless :
        (c : ChainClient)
        → ¬ IsWrapped sig
        → client ≡ some c
        → c.code_at (lib.address parsed) ≡ answered []
        → IsKeySigned parsed sig
        → Accepted parsed sig client
    -- an address with code: the contract there answers the magic value of ERC-1271
    contract :
        (c : ChainClient) (code ret : Bytes)
        → ¬ IsWrapped sig
        → client ≡ some c
        → c.code_at (lib.address parsed) ≡ answered code
        → code ≢ []
        → c.call_contract (lib.address parsed) (erc1271_calldata (hash_of lib parsed) sig)
          ≡ answered (erc1271_magic_value ++ ret)
        → Accepted parsed sig client
    -- a wrapped signature: the validator of ERC-6492, run without deployment, answers the byte 1
    counterfactual :
        (c : ChainClient) (call : Bytes → Answer) (encoded : Bytes)
        → IsWrapped sig
        → client ≡ some c
        → c.call_contract_creation ≡ some call
        → lib.pack (lib.address parsed) (right_sized_word (hash_of lib parsed)) sig ≡ some encoded
        → call (lib.validator_code ++ encoded) ≡ answered (0x01 ∷ [])
        → Accepted parsed sig client

  module _ (parsed : M) (sig : Bytes) where
    Accepted-code :
        (c : ChainClient) (code : Bytes)
        → ¬ IsWrapped sig
        → c.code_at (lib.address parsed) ≡ answered code
        → verify_deployed lib c parsed sig code ≡ returned tt
        → Accepted parsed sig (some c)
    unfolding verify_deployed
    Accepted-code c [] plain e h = codeless c plain refl e ((eip191_iff parsed sig).0 h)
    Accepted-code c (x ∷ code) plain e h =
        let called =
          c.call_contract (lib.address parsed) (erc1271_calldata (hash_of lib parsed) sig) in
        let long : (length (x ∷ code) == 0) ≡ false = ground arith in
        let (ret, (answer, magic)) =
          judge-returned is_magic_value called (rw (verify_deployed, long) at h) in
        let (rest, same) = (magic_iff ret).0 magic in
        contract c (x ∷ code) rest plain refl e (λ n. cc) (answer ∙ ap answered same)

    Accepted-plain :
        (client : Option ChainClient)
        → ¬ IsWrapped sig
        → verify_plain lib client parsed sig ≡ returned tt
        → Accepted parsed sig client
    unfolding verify_plain
    Accepted-plain none plain h = offline plain refl ((eip191_iff parsed sig).0 h)
    Accepted-plain (some c) plain h = elim (Answer-cases (c.code_at (lib.address parsed))) [
      | inl (code, e) ↦ Accepted-code c code plain e (rw (verify_plain, e) at h)
      | inr (x, e) ↦ absurd (failed_not (rw (verify_plain, e) at h))
    ]

    Accepted-wrapped :
        (client : Option ChainClient)
        → IsWrapped sig
        → verify_wrapped lib client parsed sig ≡ returned tt
        → Accepted parsed sig client
    unfolding verify_wrapped deployless validate_erc6492
    Accepted-wrapped none w h = absurd (failed_not h)
    Accepted-wrapped (some c) w h = elim (Option-cases c.call_contract_creation) [
      | inl e ↦ absurd (failed_not (rw (verify_wrapped, deployless, e) at h))
      | inr (call, e) ↦
          elim (Option-cases
            (lib.pack (lib.address parsed) (right_sized_word (hash_of lib parsed)) sig)) [
              | inl p ↦
                  absurd (failed_not (rw (verify_wrapped, deployless, e, validate_erc6492, p) at h))
              | inr (encoded, p) ↦
                  let (ret, (answer, one)) =
                    judge-returned is_one_byte (call (lib.validator_code ++ encoded))
                      (rw (verify_wrapped, deployless, e, validate_erc6492, p) at h) in
                  counterfactual c call encoded w refl e p
                    (answer ∙ ap answered ((one_byte_iff ret).0 one))
            ]
    ]

    none-Accepted :
        (resolver : Option Resolver)
        → Accepted parsed sig (client_of lib resolver parsed)
        → verify_signature lib resolver parsed sig ≡ returned tt
    unfolding verify_signature verify_plain verify_wrapped verify_deployed
    none-Accepted resolver (offline plain n key) =
        rw (verify_signature, not_wrapped sig plain, n) ((eip191_iff parsed sig).1 key)
    none-Accepted resolver (codeless c plain n code key) =
        rw (verify_signature, not_wrapped sig plain, n, verify_plain, code)
          ((eip191_iff parsed sig).1 key)
    none-Accepted resolver (contract c code ret plain n e ne answer) =
        let long : (length code == 0) ≡ false = has_length code ne in
        rw
          (
            verify_signature,
            not_wrapped sig plain,
            n,
            verify_plain,
            e,
            verify_deployed,
            long,
            answer,
          )
          (returned-judge is_magic_value (erc1271_magic_value ++ ret)
            ((magic_iff (erc1271_magic_value ++ ret)).1 (ret, refl)))
    none-Accepted resolver (counterfactual c call encoded w n e p answer) =
        rw
          (
            verify_signature,
            (IsWrapped-iff sig).1 w,
            n,
            verify_wrapped,
            deployless,
            e,
            validate_erc6492,
            p,
            answer,
          )
          (returned-judge is_one_byte (0x01 ∷ []) ((one_byte_iff (0x01 ∷ [])).1 refl))

    -- `verifySignature` reports no error exactly if, with the client that the resolver gives for the
    -- chain of the message: an unwrapped signature is the address's own where there is no client or no
    -- code at the address, the contract answers the magic value of ERC-1271 where there is code, and
    -- a wrapped signature satisfies the validator of ERC-6492 run by a client that can.
    pub verify_signature_iff :
        (resolver : Option Resolver)
        → (verify_signature lib resolver parsed sig ≡ returned tt)
          ↔ Accepted parsed sig (client_of lib resolver parsed)
    unfolding verify_signature
    verify_signature_iff resolver = (
      λ h. elim (Bool-cases (has_erc6492_suffix sig)) [
        | inl w ↦
            Accepted-wrapped (client_of lib resolver parsed) ((IsWrapped-iff sig).0 w)
              (rw (verify_signature, w) at h)
        | inr n ↦
            Accepted-plain (client_of lib resolver parsed) (λ w. cc (n, (IsWrapped-iff sig).1 w))
              (rw (verify_signature, n) at h)
      ],
      none-Accepted resolver,
    )
