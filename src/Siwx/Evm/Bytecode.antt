-- ===== src/Siwx/Evm/Bytecode.antt =====
-- siwx/evm/erc6492.go: the embedded bytecode.
use siwx_go.Base.{Bytes, codes, none, some}
use siwx_go.Go.Hex.{hex_decode}
use siwx_go.Go.Strings.{trim_space, trim_prefix}
use siwx_go.Siwx.Errors.{Outcome, returned, crashed}

-- `mustDecodeHex`, which panics.
unfoldable pub must_decode_hex : Bytes → Outcome Bytes
unfolding trim_space trim_prefix hex_decode
must_decode_hex s = elim (hex_decode (trim_prefix (trim_space s) (codes "0x"))) [
  | none ↦ crashed
  | some b ↦ returned b
]
