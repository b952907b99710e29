-- ===== src/Hub/ContractWallet/SignIn.antt =====
-- examples/hub/contractwallet.go behind siwx/evm/adapter.go: the wallets that `Register` makes.
use siwx_go.Base.{
  ℕ, ◌+◌, ◌^◌, ◌%◌, ◌≤◌, ◌<◌, Bytes, Bool, true, false, ◌==◌, Option, none, some, leb, ltb, lt→ltb,
  equal, equal_iff, equal_refl, length, ◌≡◌, ◌↔◌, refl, sym, ap, ◌∙◌, arith, inl, inr, Bool-cases,
}
use siwx_go.Go.Maps.{lookup, lookup-insert}
use siwx_go.Go.Strings.{has_prefix}
use siwx_go.Hub.ContractWallet.{
  EthCrypto, Owners, client_for, demo_contract_code, serves, code_at, sig_len, is_bad_length,
  lower_v, derive_wallet, register, signer_of, answer_for, call_contract,
}
use siwx_go.Siwx.Errors.{returned}
use siwx_go.Siwx.Evm.Calldata.{erc1271_calldata}
use siwx_go.Siwx.Evm.Calldata.Layout.{IsLaidOut, erc1271_calldata-IsLaidOut}
use siwx_go.Siwx.Evm.Chain.{Address, answered, ChainClient, Libs}
use siwx_go.Siwx.Evm.Verdicts.{IsWrapped, not_wrapped}
use siwx_go.Siwx.Evm.Signature.{
  is_magic_value, judge, hash_of, client_of, verify_deployed, verify_plain, verify_signature,
}

not_magic : ¬ (false ≡ true)
not_magic h = cc

answer_iff :
    (crypto_signer : Option Address) (owner : Address)
    → (is_magic_value (answer_for crypto_signer (some owner)) ≡ true) ↔ (crypto_signer ≡ some owner)
unfolding is_magic_value answer_for
answer_iff none owner = (λ h. absurd (not_magic h), λ h. cc)
answer_iff (some signer) owner = elim (Bool-cases (equal signer owner)) [
  | inl e ↦ (λ _. ap some ((equal_iff signer owner).0 e), λ _. rw (answer_for, e) refl)
  | inr e ↦ (λ h. absurd (not_magic (rw (answer_for, e) at h)), λ h. cc (h, e, equal_refl owner))
]

not_leb : (n : ℕ) → n < 2 ^ 32 → leb (2 ^ 63) (100 + n) ≡ false
not_leb n h = ground arith

short_calldata : (n total : ℕ) → 100 + n ≤ total → ltb total 100 ≡ false
short_calldata n total h = ground arith

good_length : (n total : ℕ) → 0 < n → n < 2 ^ 32 → 100 + n ≤ total → is_bad_length n total ≡ false
unfolding is_bad_length
good_length n total h k l =
    let a : (n == 0) ≡ false = ground arith in
    let b : leb (2 ^ 63) n ≡ false = ground arith in
    let c : ltb total (100 + n) ≡ false = ground arith in
    let d : ltb (100 + n) (2 ^ 63) ≡ true = lt→ltb _ _ (omega arith) in
    rw (is_bad_length, a, b, c, d) refl

module _ (crypto : EthCrypto) (owners : Owners) where
  -- On calldata that is laid out as the ABI says, for a signature that is not empty, `CallContract`
  -- does not panic.
  pub call_contract_laid_out :
      (to : Address) (hash sig calldata : Bytes)
      → IsLaidOut hash sig calldata
      → 0 < length sig
      → length sig < 2 ^ 32
      → call_contract crypto owners to calldata
        ≡ returned (answer_for (signer_of crypto hash (lower_v sig)) (lookup owners to))
  unfolding call_contract is_bad_length
  call_contract_laid_out to hash sig calldata l some_sig short =
      let n_is : sig_len calldata ≡ length sig = ap (λ n. n % 2 ^ 64) l.length_is ∙ omega arith in
      let long = l.is_long in
      let enough = short_calldata (length sig) (length calldata) l.is_long in
      let fine = good_length (length sig) (length calldata) some_sig short l.is_long in
      let small : leb (2 ^ 63) (100 + length sig) ≡ false = not_leb (length sig) short in
      rw (call_contract, n_is, enough, fine, small, l.hash_is, l.sig_is) refl

-- A client of the demo's chain: where the methods of the map return, the client's answer so.
pub record IsDemo (crypto : EthCrypto) (owners : Owners) (c : ChainClient) : Type 0 where
  pub code_answers : (a : Address) → c.code_at a ≡ answered (code_at owners a)
  pub call_answers :
      (to : Address) (calldata ret : Bytes)
      → call_contract crypto owners to calldata ≡ returned ret
      → c.call_contract to calldata ≡ answered ret

served :
    {M : Type 0} (lib : Libs M) (c : ChainClient) (parsed : M)
    → client_of lib (some (client_for c)) parsed ≡ some c
unfolding client_of serves has_prefix
served lib c parsed = refl

judge_iff :
    (test : Bytes → Bool) (ret : Bytes)
    → (judge test (answered ret) ≡ returned tt) ↔ (test ret ≡ true)
unfolding judge
judge_iff test ret = ground arith

module _ {M : Type 0} (lib : Libs M) (crypto : EthCrypto) (owners : Owners) (owner : Address)
    (c : ChainClient) (demo : IsDemo crypto (register crypto owner owners).1 c) (parsed : M)
    (sig : Bytes) (registered : lib.address parsed ≡ (register crypto owner owners).0) where
  has_code : c.code_at (lib.address parsed) ≡ answered demo_contract_code
  unfolding register code_at
  has_code =
      demo.code_answers (lib.address parsed)
      ∙ (λ i. answered (code_at (register crypto owner owners).1 (registered i)))
      ∙ rw (code_at, lookup-insert owners (derive_wallet crypto owner) owner) refl

  called :
      length (hash_of lib parsed) ≡ 32
      → 0 < length sig
      → length sig < 2 ^ 32
      → c.call_contract (lib.address parsed) (erc1271_calldata (hash_of lib parsed) sig)
        ≡ answered (answer_for (signer_of crypto (hash_of lib parsed) (lower_v sig)) (some owner))
  unfolding register
  called sized some_sig short =
      let owners' = (register crypto owner owners).1 in
      let run =
        call_contract_laid_out crypto owners' (lib.address parsed) (hash_of lib parsed) sig
          (erc1271_calldata (hash_of lib parsed) sig)
          (erc1271_calldata-IsLaidOut (hash_of lib parsed) sig sized short) some_sig short in
      let found : lookup owners' (lib.address parsed) ≡ some owner =
        ap (lookup owners') registered ∙ lookup-insert owners (derive_wallet crypto owner) owner in
      demo.call_answers (lib.address parsed) (erc1271_calldata (hash_of lib parsed) sig) _ run
      ∙ ap (λ o. answered (answer_for (signer_of crypto (hash_of lib parsed) (lower_v sig)) o))
          found

  -- Once `Register` has derived the wallet of an owner, the adapter, with the client of the demo's
  -- chain, accepts a signature for a message of that wallet exactly if it recovers to the owner, with
  -- its last byte brought down by 27 where it is 27 or more. The signature is not wrapped in ERC-6492,
  -- not empty and shorter than 2^32 bytes, and the hash has 32 bytes.
  pub registered_wallet_iff :
      ¬ IsWrapped sig
      → length (hash_of lib parsed) ≡ 32
      → 0 < length sig
      → length sig < 2 ^ 32
      → (verify_signature lib (some (client_for c)) parsed sig ≡ returned tt)
        ↔ (signer_of crypto (hash_of lib parsed) (lower_v sig) ≡ some owner)
  unfolding verify_signature verify_plain verify_deployed
  registered_wallet_iff plain sized some_sig short =
      let signer = signer_of crypto (hash_of lib parsed) (lower_v sig) in
      let (to, from) = judge_iff is_magic_value (answer_for signer (some owner)) in
      let (recovers, back) = answer_iff signer owner in
      let reduced : verify_signature lib (some (client_for c)) parsed sig
          ≡ judge is_magic_value (answered (answer_for signer (some owner))) =
        rw
          (
            verify_signature,
            not_wrapped sig plain,
            served lib c parsed,
            verify_plain,
            has_code,
            verify_deployed,
            called sized some_sig short,
          )
          refl in
      (λ h. recovers (to (sym reduced ∙ h)), λ h. reduced ∙ from (back h))
