-- ===== src/Siwx/Caip.antt =====
-- siwx/caip.go. A regular expression of the file is a range of lengths and a class of bytes.
pub mod RoundTrip
use siwx_go.Base.{
  ℕ, List, [], ◌∷◌, ◌++◌, Bool, true, not, ◌&&◌, ◌||◌, ◌==◌, leb, length, Bytes, Option, none, some,
  if◌then◌else◌,
}
use siwx_go.Go.Strings.{cut, all_bytes}

pub record Caip2 : Type 0 where
  pub namespace : Bytes
  pub reference : Bytes

pub record Caip10 : Type 0 where
  pub chain_id : Caip2
  pub address : Bytes

-- The error texts of the file; each wraps `ErrMalformed`.
pub data CaipError : Type 0 where
  no_colon no_first_colon no_second_colon bad_namespace bad_reference bad_address : CaipError

pub data Parsed {ℓ} (A : Type ℓ) : Type ℓ where
  parsed : A → Parsed A
  refused : CaipError → Parsed A

abbrev lower : ℕ → Bool
lower c = leb b'a' c && leb c b'z'

abbrev digit : ℕ → Bool
digit c = leb b'0' c && leb c b'9'

abbrev upper : ℕ → Bool
upper c = leb b'A' c && leb c b'Z'

abbrev namespace_byte : ℕ → Bool
namespace_byte c = (c == b'-') || (lower c || digit c)

abbrev reference_byte : ℕ → Bool
reference_byte c = (c == b'-') || ((c == b'_') || (lower c || (upper c || digit c)))

abbrev address_byte : ℕ → Bool
address_byte c = (c == b'-') || ((c == b'.') || ((c == b'%') || (lower c || (upper c || digit c))))

-- `^[class]{min,max}$`
abbrev matches : (ℕ → Bool) → ℕ → ℕ → Bytes → Bool
matches class min max s = leb min (length s) && (leb (length s) max && all_bytes class s)

unfoldable pub re_namespace : Bytes → Bool
re_namespace s = matches namespace_byte 3 8 s

unfoldable pub re_reference : Bytes → Bool
re_reference s = matches reference_byte 1 32 s

unfoldable pub re_address : Bytes → Bool
re_address s = matches address_byte 1 128 s

-- `func (c CAIP2) String`
abbrev pub string2 : Caip2 → Bytes
string2 c = c.namespace ++ b':' ∷ c.reference

-- `func (c CAIP10) String`
abbrev pub string10 : Caip10 → Bytes
string10 c = string2 c.chain_id ++ b':' ∷ c.address

-- `ParseCAIP2`
unfoldable pub parse_caip2 : Bytes → Parsed Caip2
parse_caip2 s = elim (cut s b':') [
  | none ↦ refused no_colon
  | some (ns, ref) ↦
      if not (re_namespace ns)
      then refused bad_namespace
      else if not (re_reference ref)
      then refused bad_reference
      else parsed (record { namespace = ns; reference = ref })
]

-- The three tests of `ParseCAIP10`.
unfoldable pub checked_account : Bytes → Bytes → Bytes → Parsed Caip10
checked_account ns ref addr =
    if not (re_namespace ns)
    then refused bad_namespace
    else if not (re_reference ref)
    then refused bad_reference
    else if not (re_address addr)
    then refused bad_address
    else parsed (record { chain_id = record { namespace = ns; reference = ref }; address = addr })

-- `ParseCAIP10`
unfoldable pub parse_caip10 : Bytes → Parsed Caip10
unfolding checked_account
parse_caip10 s = elim (cut s b':') [
  | none ↦ refused no_first_colon
  | some (ns, rest) ↦ elim (cut rest b':') [
    | none ↦ refused no_second_colon
    | some (ref, addr) ↦ checked_account ns ref addr
  ]
]
