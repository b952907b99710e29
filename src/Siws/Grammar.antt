-- ===== src/Siws/Grammar.antt =====
-- The grammar of a message, as the comments of siws/parse.go and SPEC.md (S9) give it: which lines
-- stand for which message. It says nothing of how they are read.
pub mod Optional
pub mod Complete
pub mod Sound
pub mod Returns
use siwx_go.Base.{
  ℕ, [], ◌∷◌, ◌++◌, List, map, Bytes, codes, Option, none, some, Bool, false, length, ◌≡◌, ◌≢◌,
}
use siwx_go.Go.Time.{TimeLib}
use siwx_go.Siws.Base58.{decode_base58}
use siwx_go.Siws.Errors.{Field, ok}
use siwx_go.Siws.Fields.{is_field_prefix, valid_nonce}
use siwx_go.Siws.Message.{Message, label, header_suffix, mainnet}
use siwx_go.Siws.Trailer.{dash, parse_timestamp, parse_issued_at}

-- The optional fields, each with what may follow it, from the message so far to the whole message.
pub data ResourceBlock (m : Message) (ls : List Bytes) (m' : Message) : Type 0 where
  no_resources : ls ≡ [] → m' ≡ m → ResourceBlock m ls m'
  resource_list :
      (rs : List Bytes)
      → ls ≡ label Field.resources ∷ map (λ r. dash ++ r) rs
      → m' ≡ record m { resources = m.resources ++ rs }
      → ResourceBlock m ls m'

pub data RequestBlock (m : Message) (ls : List Bytes) (m' : Message) : Type 0 where
  no_request : ResourceBlock m ls m' → RequestBlock m ls m'
  request :
      (id : Bytes) (rest : List Bytes)
      → ls ≡ (label Field.request_id ++ id) ∷ rest
      → ResourceBlock (record m { request_id = id }) rest m'
      → RequestBlock m ls m'

-- The lines of the statement, if there is one, with the empty line behind it.
abbrev pub statement_block : Bytes → List Bytes → List Bytes
statement_block [] rest = rest
statement_block (c ∷ s) rest = (c ∷ s) ∷ [] ∷ rest

-- The line of the chain, if there is one.
abbrev pub chain_block : Option Bytes → List Bytes → List Bytes
chain_block none rest = rest
chain_block (some c) rest = (label Field.chain_id ++ c) ∷ rest

abbrev pub chain_or_mainnet : Option Bytes → Bytes
chain_or_mainnet none = mainnet
chain_or_mainnet (some []) = mainnet
chain_or_mainnet (some (c ∷ s)) = c ∷ s

module _ (lib : TimeLib) where
  pub data StartBlock (m : Message) (ls : List Bytes) (m' : Message) : Type 0 where
    no_start : RequestBlock m ls m' → StartBlock m ls m'
    start :
        (v : Bytes) (t : ℕ) (rest : List Bytes)
        → ls ≡ (label Field.not_before ++ v) ∷ rest
        → parse_timestamp lib v ≡ some t
        → RequestBlock (record m { not_before = some t }) rest m'
        → StartBlock m ls m'

  pub data OptionalFields (m : Message) (ls : List Bytes) (m' : Message) : Type 0 where
    no_expiration : StartBlock m ls m' → OptionalFields m ls m'
    expiration :
        (v : Bytes) (t : ℕ) (rest : List Bytes)
        → ls ≡ (label Field.expiration_time ++ v) ∷ rest
        → parse_timestamp lib v ≡ some t
        → StartBlock (record m { expiration_time = some t }) rest m'
        → OptionalFields m ls m'

  -- `lines` stand for the message `m`.
  pub record IsMessageText (lines : List Bytes) (m : Message) : Type 0 where
    pub required : Message
    pub key : Bytes
    pub chain_text : Option Bytes
    pub stamp : Bytes
    pub rest : List Bytes
    pub lines_are :
        lines
        ≡ (required.domain ++ header_suffix)
          ∷ required.address
          ∷ []
          ∷ statement_block required.statement (
              (label Field.uri ++ required.uri)
              ∷ (label Field.version ++ codes "1")
              ∷ chain_block chain_text
                  ((label Field.nonce ++ required.nonce) ∷ (label Field.issued_at ++ stamp) ∷ rest))
    pub domain_ne_nil : required.domain ≢ []
    pub address_ne_nil : required.address ≢ []
    pub key_decodes : decode_base58 required.address ≡ ok key
    pub key_size : length key ≡ 32
    pub statement_plain : is_field_prefix required.statement ≡ false
    pub uri_ne_nil : required.uri ≢ []
    pub nonce_valid : valid_nonce required.nonce ≡ Bool.true
    pub issued : parse_issued_at lib stamp ≡ ok required.issued_at
    pub required_is : required ≡ record required {
      version = codes "1";
      chain_id = chain_or_mainnet chain_text;
      expiration_time = none;
      not_before = none;
      request_id = [];
      resources = [];
    }
    pub optional : OptionalFields required rest m
