-- ===== src/Siws/Message.antt =====
-- siws/message.go: `Message` and `String`.
pub mod Lines
pub mod WellFormed
use siwx_go.Base.{
  ℕ, List, [], ◌∷◌, ◌++◌, Bytes, codes, Option, none, some, if◌then◌else◌, equal, Bool, not,
}
use siwx_go.Go.Time.{TimeLib}
use siwx_go.Siws.Errors.{
  Field, uri, version, chain_id, nonce, issued_at, expiration_time, not_before, request_id,
  resources,
}

-- `type Message`. An empty text, a nil pointer and an empty slice stand for what is absent.
pub record Message : Type 0 where
  pub domain : Bytes
  pub address : Bytes
  pub statement : Bytes
  pub uri : Bytes
  pub version : Bytes
  pub chain_id : Bytes
  pub nonce : Bytes
  pub issued_at : ℕ
  pub expiration_time : Option ℕ
  pub not_before : Option ℕ
  pub request_id : Bytes
  pub resources : List Bytes

-- What stands behind the domain on the first line.
abbrev pub header_suffix : Bytes
header_suffix = codes " wants you to sign in with your Solana account:"

abbrev pub mainnet : Bytes
mainnet = codes "mainnet"

-- What a field's line begins with.
unfoldable pub label : Field → Bytes
label Field.uri = codes "URI: "
label Field.version = codes "Version: "
label Field.chain_id = codes "Chain ID: "
label Field.nonce = codes "Nonce: "
label Field.issued_at = codes "Issued At: "
label Field.expiration_time = codes "Expiration Time: "
label Field.not_before = codes "Not Before: "
label Field.request_id = codes "Request ID: "
label Field.resources = codes "Resources:"

-- One `WriteString` of a text and `WriteByte('\n')`, in front of what is written next.
abbrev pub line : Bytes → Bytes → Bytes
line l rest = l ++ b'\n' ∷ rest

-- The loop over the resources.
resource_lines : List Bytes → Bytes
resource_lines [] = []
resource_lines (r ∷ rs) = line (codes "- " ++ r) (resource_lines rs)

-- `if len(m.Resources) > 0`
resources_text : List Bytes → Bytes
unfolding resource_lines
resources_text [] = []
resources_text (r ∷ rs) = line (label Field.resources) (resource_lines (r ∷ rs))

-- `if m.RequestID != ""`
request_text : Bytes → Bytes → Bytes
request_text id rest = if not (equal id []) then line (label Field.request_id ++ id) rest else rest

-- `if m.Statement != ""`
statement_text : Bytes → Bytes → Bytes
statement_text s rest = if not (equal s []) then line [] (line s rest) else rest

module _ (lib : TimeLib) where
  -- `if m.ExpirationTime != nil`, `if m.NotBefore != nil`
  time_text : Field → Option ℕ → Bytes → Bytes
  time_text f none rest = rest
  time_text f (some t) rest = line (label f ++ lib.format t) rest

  -- `func (m *Message) String()`
  unfoldable pub to_string : Message → Bytes
  unfolding resources_text request_text statement_text time_text
  to_string m = line (m.domain ++ header_suffix) (
      line m.address (
        statement_text m.statement (
          line [] (
            line (label Field.uri ++ m.uri) (
              line (label Field.version ++ m.version) (
                line (label Field.chain_id ++ m.chain_id) (
                  line (label Field.nonce ++ m.nonce) (
                    line (label Field.issued_at ++ lib.format m.issued_at) (
                      time_text Field.expiration_time m.expiration_time (
                        time_text Field.not_before m.not_before
                          (request_text m.request_id (resources_text m.resources))))))))))))
