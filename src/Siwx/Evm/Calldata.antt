-- ===== src/Siwx/Evm/Calldata.antt =====
-- siwx/evm/adapter.go: the suffix of ERC-6492 signatures and the calldata of ERC-1271 calls. Lengths
-- are natural numbers; `uint256Word` keeps the low four bytes of its number, as the source does.
pub mod Layout
use siwx_go.Base.{
  ℕ, zero, suc, ◌+◌, ◌-◌, ◌*◌, ◌/◌, ◌%◌, ◌^◌, List, [], ◌∷◌, ◌++◌, Bytes, Bool, ◌&&◌, leb, equal,
  length, take, drop, replicate,
}

-- `erc1271Selector` and `erc1271MagicValue`
abbrev pub erc1271_selector : Bytes
erc1271_selector = 0x16 ∷ 0x26 ∷ 0xba ∷ 0x7e ∷ []

abbrev pub erc1271_magic_value : Bytes
erc1271_magic_value = 0x16 ∷ 0x26 ∷ 0xba ∷ 0x7e ∷ []

-- The bytes `b`, `n` times.
abbrev repeated : ℕ → Bytes → Bytes
repeated zero b = []
repeated (suc n) b = b ++ repeated n b

-- `erc6492Magic`: the two bytes 0x64 and 0x92, sixteen times.
abbrev pub erc6492_magic : Bytes
erc6492_magic = repeated 16 (0x64 ∷ 0x92 ∷ [])

-- `hasERC6492Suffix`
unfoldable pub has_erc6492_suffix : Bytes → Bool
unfolding equal
has_erc6492_suffix sig =
    leb (length erc6492_magic) (length sig)
    && equal (drop (length sig - length erc6492_magic) sig) erc6492_magic

-- `rightSizedWord`: a word of 32 bytes, and `copy` into it.
unfoldable pub right_sized_word : Bytes → Bytes
right_sized_word b = take 32 b ++ replicate (32 - length b) 0

-- `uint256Word`
unfoldable pub uint256_word : ℕ → Bytes
uint256_word n =
    replicate 28 0 ++ n / 2 ^ 24 % 256 ∷ n / 2 ^ 16 % 256 ∷ n / 2 ^ 8 % 256 ∷ n % 256 ∷ []

abbrev pub padded_sig_len : Bytes → ℕ
padded_sig_len sig = (length sig + 31) / 32 * 32

-- `erc1271Calldata`
unfoldable pub erc1271_calldata : Bytes → Bytes → Bytes
unfolding right_sized_word uint256_word
erc1271_calldata hash sig =
    erc1271_selector
    ++ right_sized_word hash
    ++ uint256_word 64
    ++ uint256_word (length sig)
    ++ sig
    ++ replicate (padded_sig_len sig - length sig) 0
