-- ===== src/Siwx/Evm/Chain.antt =====
-- siwx/evm/adapter.go and siwx/evm/erc6492.go: the interfaces that the adapter calls. A verification
-- makes at most one call of each method of a client, so that a function of the arguments stands for
-- what a client answers in it. The libraries siwe-go and go-ethereum are the record `Libs`.
use siwx_go.Base.{ℕ, ◌≤◌, ◌≢◌, ◌++◌, Bytes, Bool, Option, none, codes, length}
use siwx_go.Go.Hex.{hex_encode}
use siwx_go.Go.Time.{TimeLib}
use siwx_go.Siwx.Errors.{Error}

-- What a call over the network comes to: bytes, or an error.
pub data Answer : Type 0 where
  answered : Bytes → Answer
  refused : Error → Answer

-- `common.Address`
abbrev pub Address : Type 0
Address = Bytes

-- `ChainClient`, and `DeploylessCaller` where the client implements it.
pub record ChainClient : Type 0 where
  pub call_contract : Address → Bytes → Answer
  pub code_at : Address → Answer
  pub call_contract_creation : Option (Bytes → Answer)

-- `Resolver`: the client that `ClientFor` returns, `none` for `nil`. The adapter ignores its second
-- result.
abbrev pub Resolver : Type 0
Resolver = Bytes → Option ChainClient

-- What is not code of the repository: siwe-go on its type of messages, go-ethereum, `time`, and the
-- embedded bytecode.
pub record Libs (M : Type 0) : Type 0 where
  -- `siwelib.ParseMessage`
  pub parse_message : Bytes → Option M
  -- `GetDomain`, `GetNonce`, `GetAddress`, `GetChainID`, `GetIssuedAt`
  pub domain : M → Bytes
  pub nonce : M → Bytes
  pub address : M → Address
  pub chain_id : M → ℕ
  pub issued_at : M → Bytes
  -- `GetNotBefore`, `GetExpirationTime`
  pub not_before : M → Option Bytes
  pub expiration_time : M → Option Bytes
  -- `String`
  pub to_string : M → Bytes
  -- whether `VerifyEIP191` returns no error, or `none` where it panics
  pub verify_eip191 : M → Bytes → Option Bool
  -- `accounts.TextHash`
  pub text_hash : Bytes → Bytes
  -- `Address.Hex`
  pub hex_address : Address → Bytes
  -- `deploylessArgs.Pack`
  pub pack : Address → Bytes → Bytes → Option Bytes
  -- `validateSigOffchainCode`
  pub validator_code : Bytes
  pub time : TimeLib

-- `VerifyEIP191` takes a signature of 65 bytes, in hexadecimal digits behind "0x", and reads the last of
-- these bytes: it panics on a shorter text, and on no longer one.
pub record Eip191Laws {M : Type 0} (lib : Libs M) : Type 0 where
  pub returns :
      (parsed : M) (sig : Bytes)
      → 65 ≤ length sig
      → lib.verify_eip191 parsed (codes "0x" ++ hex_encode sig) ≢ none
