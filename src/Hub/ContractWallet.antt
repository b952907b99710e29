-- ===== src/Hub/ContractWallet.antt =====
-- examples/hub/contractwallet.go: the simulated chain of the demo. A method holds the lock while it
-- touches the map, so it is one step. Keccak-256, the recovery of a key and the making of addresses are
-- go-ethereum's.
pub mod SignIn
use siwx_go.Base.{
  ℕ, ◌+◌, ◌-◌, ◌%◌, ◌^◌, List, [], ◌∷◌, ◌++◌, Bytes, codes, Bool, true, false, ◌&&◌, ◌||◌, ◌==◌,
  Option, none, some, if◌then◌else◌, leb, ltb, equal, length, take, drop, replicate,
}
use siwx_go.Go.BigInt.{set_bytes}
use siwx_go.Go.Maps.{lookup, insert}
use siwx_go.Go.Strings.{has_prefix}
use siwx_go.Siwx.Errors.{Outcome, returned, crashed}
use siwx_go.Siwx.Evm.Calldata.{erc1271_magic_value}
use siwx_go.Siwx.Evm.Chain.{Address, ChainClient, Resolver}

pub record EthCrypto : Type 0 where
  -- `ethcrypto.Keccak256`, on its arguments joined
  pub keccak256 : Bytes → Bytes
  -- `common.BytesToAddress`
  pub bytes_to_address : Bytes → Address
  -- `ethcrypto.SigToPub`
  pub sig_to_pub : Bytes → Bytes → Option Bytes
  -- `ethcrypto.PubkeyToAddress`
  pub pubkey_to_address : Bytes → Address

-- `owners`
abbrev pub Owners : Type 0
Owners = List (Address × Address)

abbrev pub demo_contract_code : Bytes
demo_contract_code = 0x60 ∷ 0x80 ∷ 0x60 ∷ 0x40 ∷ 0x52 ∷ []

-- `ClientFor` answers for this chain.
unfoldable pub serves : Bytes → Bool
unfolding has_prefix
serves chain_id = has_prefix chain_id (codes "eip155:")

-- `ClientFor`, with the client that stands for the map.
abbrev pub client_for : ChainClient → Resolver
client_for c = λ chain_id. if serves chain_id then some c else none

-- `CodeAt`
unfoldable pub code_at : Owners → Address → Bytes
unfolding lookup
code_at owners address = elim (lookup owners address) [ none ↦ [] | some _ ↦ demo_contract_code ]

abbrev pub zero_word : Bytes
zero_word = replicate 32 0

-- `int(new(big.Int).SetBytes(word).Int64())`, as the 64 bits of the integer: from 2^63 on it is
-- negative.
abbrev pub sig_len : Bytes → ℕ
sig_len calldata = set_bytes (take 32 (drop 68 calldata)) % 2 ^ 64

-- `sigLen <= 0 || headLen+sigLen > len(data)`: the sum wraps around, and is negative from 2^63 on.
unfoldable pub is_bad_length : ℕ → ℕ → Bool
is_bad_length n total = n == 0 || leb (2 ^ 63) n || (ltb (100 + n) (2 ^ 63) && ltb total (100 + n))

-- The last byte of a signature of 65 bytes: `sig[64] -= 27` where it is at least 27.
unfoldable pub lower_v : Bytes → Bytes
lower_v sig = if length sig == 65 then take 64 sig ++ lower (drop 64 sig) else sig
  where
    lower : Bytes → Bytes
    lower [] = []
    lower (v ∷ vs) = (if leb 27 v then v - 27 else v) ∷ vs

-- From the recovery on.
unfoldable pub answer_for : Option Address → Option Address → Bytes
unfolding equal
answer_for (some signer) (some owner) =
    if equal signer owner then erc1271_magic_value ++ replicate 28 0 else zero_word
answer_for _ _ = zero_word

module _ (lib : EthCrypto) where
  -- `deriveWallet`
  unfoldable pub derive_wallet : Address → Address
  derive_wallet owner =
      lib.bytes_to_address (drop 12 (lib.keccak256 (codes "siwx-go-demo-1271:" ++ owner)))

  -- `Register`
  unfoldable pub register : Address → Owners → Address × Owners
  unfolding derive_wallet
  register owner owners = let wallet = derive_wallet owner in (wallet, insert owners wallet owner)

  -- `SigToPub` and `PubkeyToAddress`
  unfoldable pub signer_of : Bytes → Bytes → Option Address
  signer_of hash sig = elim (lib.sig_to_pub hash sig) [
    | none ↦ none
    | some pub_key ↦ some (lib.pubkey_to_address pub_key)
  ]

  -- `CallContract`. `make` panics on a length near 2^63.
  unfoldable pub call_contract : Owners → Address → Bytes → Outcome Bytes
  unfolding is_bad_length lower_v signer_of answer_for lookup
  call_contract owners to calldata =
      let n = sig_len calldata in
      let sig = lower_v (take n (drop 100 calldata)) in
      if ltb (length calldata) 100
      then returned zero_word
      else if is_bad_length n (length calldata)
      then returned zero_word
      else if leb (2 ^ 63) (100 + n)
      then crashed
      else returned (answer_for (signer_of (take 32 (drop 4 calldata)) sig) (lookup owners to))
