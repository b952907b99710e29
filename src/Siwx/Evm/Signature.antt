-- ===== src/Siwx/Evm/Signature.antt =====
-- siwx/evm/adapter.go and siwx/evm/erc6492.go: which way a signature is checked, and the check.
use siwx_go.Base.{
  [], ◌∷◌, ◌++◌, Bytes, codes, Bool, ◌&&◌, ◌==◌, Option, none, some, if◌then◌else◌, leb, equal,
  length, take,
}
use siwx_go.Go.Hex.{hex_encode}
use siwx_go.Go.Strconv.{decimal}
use siwx_go.Siwx.Errors.{Sentinel, Outcome, returned, failed, crashed}
use siwx_go.Siwx.Evm.Calldata.{
  erc1271_magic_value, has_erc6492_suffix, right_sized_word, erc1271_calldata,
}
use siwx_go.Siwx.Evm.Chain.{Answer, answered, refused, ChainClient, Resolver, Libs}

-- The conditions on what a contract returns.
unfoldable pub is_magic_value : Bytes → Bool
unfolding equal
is_magic_value ret =
    leb (length erc1271_magic_value) (length ret) && equal (take 4 ret) erc1271_magic_value

unfoldable pub is_one_byte : Bytes → Bool
unfolding equal
is_one_byte ret = equal ret (0x01 ∷ [])

-- The end of the two checks on chain: an error of the call is wrapped behind `ErrRPC`.
unfoldable pub judge : (Bytes → Bool) → Answer → Outcome (Unit {0})
judge test (refused e) = failed (Sentinel.rpc ∷ e)
judge test (answered ret) =
    if test ret then returned tt else failed (Sentinel.contract_validation_failed ∷ [])

-- The type assertion `client.(DeploylessCaller)`.
unfoldable pub deployless : Option ChainClient → Option (Bytes → Answer)
deployless none = none
deployless (some client) = client.call_contract_creation

module _ {M : Type 0} (lib : Libs M) where
  -- `verifyEIP191`
  unfoldable pub verify_eip191 : M → Bytes → Outcome (Unit {0})
  unfolding hex_encode
  verify_eip191 parsed sig = elim (lib.verify_eip191 parsed (codes "0x" ++ hex_encode sig)) [
    | none ↦ crashed
    | some valid ↦ if valid then returned tt else failed (Sentinel.bad_signature ∷ [])
  ]

  -- `accounts.TextHash([]byte(parsed.String()))`
  abbrev pub hash_of : M → Bytes
  hash_of parsed = lib.text_hash (lib.to_string parsed)

  -- `validateERC6492`
  unfoldable pub validate_erc6492 : (Bytes → Answer) → Bytes → Bytes → Bytes → Outcome (Unit {0})
  unfolding right_sized_word judge is_one_byte
  validate_erc6492 call_contract_creation signer hash wrapped_sig =
      elim (lib.pack signer (right_sized_word hash) wrapped_sig) [
        | none ↦ failed (Sentinel.contract_validation_failed ∷ [])
        | some encoded ↦ judge is_one_byte (call_contract_creation (lib.validator_code ++ encoded))
      ]

  -- The call of `ClientFor`, where there is a resolver.
  unfoldable pub client_of : Option Resolver → M → Option ChainClient
  unfolding decimal
  client_of none parsed = none
  client_of (some client_for) parsed = client_for (codes "eip155:" ++ decimal (lib.chain_id parsed))

  -- From the length of the code on.
  unfoldable pub verify_deployed : ChainClient → M → Bytes → Bytes → Outcome (Unit {0})
  unfolding verify_eip191 judge erc1271_calldata is_magic_value
  verify_deployed client parsed sig code =
      if length code == 0
      then verify_eip191 parsed sig
      else judge is_magic_value
          (client.call_contract (lib.address parsed) (erc1271_calldata (hash_of parsed) sig))

  -- From `client == nil` on.
  unfoldable pub verify_plain : Option ChainClient → M → Bytes → Outcome (Unit {0})
  unfolding verify_eip191 verify_deployed
  verify_plain none parsed sig = verify_eip191 parsed sig
  verify_plain (some client) parsed sig = elim (client.code_at (lib.address parsed)) [
    | refused e ↦ failed (Sentinel.rpc ∷ e)
    | answered code ↦ verify_deployed client parsed sig code
  ]

  -- From `hasERC6492Suffix` in the affirmative on.
  unfoldable pub verify_wrapped : Option ChainClient → M → Bytes → Outcome (Unit {0})
  unfolding deployless validate_erc6492
  verify_wrapped client parsed sig = elim (deployless client) [
    | none ↦ failed (Sentinel.contract_wallet_unsupported ∷ [])
    | some call ↦ validate_erc6492 call (lib.address parsed) (hash_of parsed) sig
  ]

  -- `verifySignature`
  unfoldable pub verify_signature : Option Resolver → M → Bytes → Outcome (Unit {0})
  unfolding client_of verify_wrapped verify_plain has_erc6492_suffix
  verify_signature resolver parsed sig =
      let client = client_of resolver parsed in
      if has_erc6492_suffix sig
      then verify_wrapped client parsed sig
      else verify_plain client parsed sig
