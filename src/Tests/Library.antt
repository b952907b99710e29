-- ===== src/Tests/Library.antt =====
-- Go's library, the configuration and the simulated chain on small inputs.
use siwx_go.Base.{[], ◌∷◌, ◌++◌, Bytes, codes, true, false, none, some, equal, replicate, ◌≡◌, refl}
use siwx_go.Go.Base64.{std_decode, raw_url_decode}
use siwx_go.Go.Strconv.{decimal}
use siwx_go.Go.Strings.{trim_space}
use siwx_go.Hub.Config.{binding, env_bool}
use siwx_go.Hub.ContractWallet.{call_contract}
use siwx_go.Hub.Config.{build_domain}
use siwx_go.Siwx.Errors.{returned, crashed}
use siwx_go.Siwx.Evm.Bytecode.{must_decode_hex}
use siwx_go.Siwx.Evm.Calldata.{erc1271_selector}
use siwx_go.Tests.Evm.{crypto}

trimmed : trim_space (codes " \ta b\n" ++ 0xc2 ∷ 0xa0 ∷ []) ≡ codes "a b"
unfolding trim_space
trimmed = refl

padded : std_decode (codes "aGk=") ≡ some (codes "hi")
unfolding std_decode
padded = refl

padding_missing : std_decode (codes "aGk") ≡ none
unfolding std_decode
padding_missing = refl

not_padded : raw_url_decode (codes "aGk") ≡ some (codes "hi")
unfolding raw_url_decode
not_padded = refl

decimal_text : decimal 120 ≡ codes "120"
unfolding decimal
decimal_text = refl

bytecode_read : must_decode_hex (codes "0x00fF\n") ≡ returned (0 ∷ 255 ∷ [])
unfolding must_decode_hex
bytecode_read = refl

odd_bytecode : must_decode_hex (codes "0x0") ≡ crashed
unfolding must_decode_hex
odd_bytecode = refl

yes_in_capitals : env_bool ((codes "K", codes " YES ") ∷ []) (codes "K") false ≡ true
unfolding env_bool
yes_in_capitals = refl

quoted : binding (codes " K = \"a b\" ") ≡ some (codes "K", codes "a b")
unfolding binding equal
quoted = refl

commented : binding (codes "# K=1") ≡ none
unfolding binding equal
commented = refl

with_port : build_domain (codes "localhost") (codes "8081") ≡ codes "localhost:8081"
unfolding build_domain equal
with_port = refl

-- A length of 2^63 - 1 in the calldata passes the test of the length, and `make` panics.
abbrev overflowing : Bytes
overflowing = erc1271_selector ++ replicate 64 0 ++ replicate 24 0 ++ 127 ∷ replicate 7 255

length_overflows : call_contract crypto [] [] overflowing ≡ crashed
unfolding call_contract
length_overflows = refl
