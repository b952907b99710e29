-- ===== src/Tests/Evm.antt =====
-- The EVM adapter and the demo's wallets at one message, with libraries that know one signature.
use siwx_go.Base.{
  [], ◌∷◌, ◌++◌, Bytes, codes, Bool, Option, none, some, if◌then◌else◌, equal, length, replicate,
  ◌≡◌, ◌≢◌, ◌↔◌, ltb, refl, ap, arith,
}
use siwx_go.Go.Hex.{hex_encode}
use siwx_go.Hub.ContractWallet.{
  EthCrypto, Owners, client_for, code_at, lower_v, register, signer_of, call_contract,
}
use siwx_go.Hub.ContractWallet.SignIn.{IsDemo, registered_wallet_iff}
use siwx_go.Siwx.Checks.Trail.{check_order}
use siwx_go.Siwx.Errors.{Sentinel, Outcome, returned, failed, crashed}
use siwx_go.Siwx.Evm.Calldata.{has_erc6492_suffix, erc6492_magic}
use siwx_go.Siwx.Evm.Chain.{Answer, answered, refused, ChainClient, Libs}
use siwx_go.Siwx.Evm.Refines.{IsSignIn, evm_verify_iff}
use siwx_go.Siwx.Evm.EvmRpc.{
  Dial, dialled, not_dialled, Client, eth_client, ask, ask_all, one_connection,
}
use siwx_go.Siwx.Evm.Rejections.{Rejected, verify_signature-Rejected}
use siwx_go.Siwx.Evm.Routing.{Accepted, verify_signature_iff}
use siwx_go.Siwx.Evm.Verdicts.{IsWrapped, IsWrapped-iff}
use siwx_go.Siwx.Evm.Signature.{client_of, deployless, verify_wrapped, verify_signature, hash_of}
use siwx_go.Siwx.Evm.Trail.{IsEvmTrail, evm_checks-IsTrail}
use siwx_go.Siwx.Evm.{identity_of, run_checks, verify}
use siwx_go.Siwx.Verifier.{nop_observer, nil, Clock, VerifyOpts}
use siwx_go.Tests.Clock.{unary}

abbrev pub owner : Bytes
owner = replicate 20 1

abbrev pub wallet : Bytes
wallet = replicate 20 5

abbrev pub signature : Bytes
signature = replicate 65 7

-- It panics on fewer than 130 digits.
abbrev pub key_signed : Unit {0} → Bytes → Option Bool
key_signed m s =
    if ltb (length s) 132 then none else some (equal s (codes "0x" ++ hex_encode signature))

abbrev pub parse_hi : Bytes → Option (Unit {0})
parse_hi b = if equal b (codes "hi") then some tt else none

-- The one message there is.
unfoldable pub toy : Libs (Unit {0})
unfolding unary hex_encode equal
toy = record {
  parse_message = parse_hi;
  domain = λ m. codes "a.io";
  nonce = λ m. codes "abcd1234";
  address = λ m. wallet;
  chain_id = λ m. 1;
  issued_at = λ m. codes "t";
  not_before = λ m. some (codes "tt");
  expiration_time = λ m. some (codes "ttttttttt");
  to_string = λ m. codes "hi";
  verify_eip191 = key_signed;
  text_hash = λ b. replicate 32 9;
  hex_address = λ b. codes "0x05";
  pack = λ a h s. some s;
  validator_code = [];
  time = unary;
}

verify_signature_iff_example :
    (verify_signature toy none tt signature ≡ returned tt)
    ↔ Accepted toy tt signature (client_of toy none tt)
verify_signature_iff_example = verify_signature_iff toy tt signature none

abbrev wrapped : Bytes
wrapped = 7 ∷ erc6492_magic

-- A wrapped signature without a client.
not_supported :
    verify_signature toy none tt wrapped ≡ failed (Sentinel.contract_wallet_unsupported ∷ [])
unfolding verify_signature has_erc6492_suffix equal client_of verify_wrapped deployless
not_supported = refl

verify_signature-Rejected_example :
    Rejected toy tt wrapped (client_of toy none tt) (Sentinel.contract_wallet_unsupported ∷ [])
verify_signature-Rejected_example =
    verify_signature-Rejected toy tt wrapped none (Sentinel.contract_wallet_unsupported ∷ [])
      not_supported

abbrev pub steady : Clock
steady n = 5

abbrev opts : VerifyOpts
opts = record {
  expected_domain = codes "a.io";
  expected_nonce = codes "abcd1234";
  observer = nop_observer;
  clock = some steady;
  attempt_id = codes "a1";
}

observed : opts.observer ≢ nil
observed h = cc

evm_checks-IsTrail_example :
    IsEvmTrail
      (codes "a1")
      (verify_signature toy none tt signature)
      check_order
      (run_checks toy none tt signature opts 5)
evm_checks-IsTrail_example = evm_checks-IsTrail toy none opts observed tt signature 5

evm_verify_iff_example :
    ((verify toy none (codes "hi") signature opts).outcome ≡ returned (identity_of toy tt))
    ↔ IsSignIn toy none steady opts observed refl (codes "hi") signature (identity_of toy tt)
evm_verify_iff_example =
    evm_verify_iff toy none steady opts observed refl (codes "hi") signature (identity_of toy tt)

abbrev recover : Bytes → Bytes → Option Bytes
recover hash sig = if equal sig signature then some (codes "k") else none

abbrev pub crypto : EthCrypto
crypto = record {
  keccak256 = λ b. replicate 32 5;
  bytes_to_address = λ b. b;
  sig_to_pub = recover;
  pubkey_to_address = λ k. owner;
}

abbrev answer_of : Outcome Bytes → Answer
answer_of (returned b) = answered b
answer_of (failed e) = refused e
answer_of crashed = refused []

-- The client that answers as the map says.
unfoldable pub demo : Owners → ChainClient
unfolding code_at call_contract
demo owners = record {
  code_at = λ a. answered (code_at owners a);
  call_contract = λ to calldata. answer_of (call_contract crypto owners to calldata);
  call_contract_creation = none;
}

demo-IsDemo : (owners : Owners) → IsDemo crypto owners (demo owners)
unfolding demo
demo-IsDemo owners = record {
  code_answers = λ a. refl;
  call_answers = λ to calldata ret h. ap answer_of h;
}

not-IsWrapped_here : ¬ IsWrapped signature
unfolding has_erc6492_suffix equal
not-IsWrapped_here w = cc ((IsWrapped-iff signature).1 w)

registered_here : toy.address tt ≡ (register crypto owner []).0
unfolding toy register
registered_here = refl

sized : length (hash_of toy tt) ≡ 32
unfolding toy
sized = refl

registered_wallet_iff_example :
    (verify_signature toy (some (client_for (demo (register crypto owner []).1))) tt signature
      ≡ returned tt)
    ↔ (signer_of crypto (hash_of toy tt) (lower_v signature) ≡ some owner)
registered_wallet_iff_example =
    registered_wallet_iff toy crypto [] owner (demo (register crypto owner []).1)
      (demo-IsDemo (register crypto owner []).1) tt signature registered_here not-IsWrapped_here
      sized (omega arith) (omega arith)

abbrev link : Bytes → Dial (Unit {0})
link url = dialled tt

abbrev broken : Bytes → Dial (Unit {0})
broken url = not_dialled []

abbrev fresh_client : Client (Unit {0})
fresh_client = record { url = codes "u"; eth = none }

abbrev code_call : Unit {0} → Answer
code_call c = answered (codes "code")

dialled_here : (eth_client (Unit {0}) link fresh_client).0 ≡ dialled tt
unfolding eth_client
dialled_here = refl

one_connection_example :
    ask
      (Unit {0})
      broken
      code_call
      (ask_all (Unit {0}) ((broken, code_call) ∷ []) (eth_client (Unit {0}) link fresh_client).1)
    ≡ (answered (codes "code"), (eth_client (Unit {0}) link fresh_client).1)
one_connection_example =
    one_connection (Unit {0}) link broken fresh_client tt ((broken, code_call) ∷ []) code_call
      dialled_here
