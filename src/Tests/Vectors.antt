-- ===== src/Tests/Vectors.antt =====
-- The loader of the test vectors on a small file.
use siwx_go.Base.{[], ◌∷◌, Bytes, codes, All, Option, none, some, drop, equal, ◌≡◌, ◌↔◌, refl}
use siwx_go.Go.Strings.{split, has_suffix}
use siwx_go.Go.Maps.{delete}
use siwx_go.Siws.Errors as SiwsErrors
use siwx_go.Siws.Errors.{sentinel, wrong_nonce}
use siwx_go.Siws.Message.{label, to_string}
use siwx_go.Tests.Clock.{unary}
use siwx_go.Tests.Siws.{message, text, text_parses}
use siwx_go.TestVectors.Extract.{NoHeader, extract-parse_message}
use siwx_go.TestVectors.Loads.{IsCorpusOf, parse_iff}
use siwx_go.TestVectors.{Corpus, RawFile, loaded, parse, extract_domain_nonce}

abbrev file : RawFile
file = record {
  description = codes "two";
  reference_time = codes "ttt";
  keys =
      record { id = codes "k"; public_key_base58 = codes "1"; private_seed_b64 = codes "Bwc=" }
      ∷ [];
  valid =
      record {
        name = codes "good";
        key = codes "k";
        message_b64 = codes "aGk=";
        signature_b64 = codes "Bwc=";
        expected_error = [];
      }
      ∷ [];
  invalid =
      record {
        name = codes "bad";
        key = codes "k";
        message_b64 = codes "aGk=";
        signature_b64 = codes "Bwc=";
        expected_error = codes "ErrExpired";
      }
      ∷ [];
}

abbrev unmarshal : Bytes → Option RawFile
unmarshal b = some file

abbrev corpus : Corpus
corpus = record {
  reference_time = 3;
  keys =
      (
        codes "k",
        record { id = codes "k"; public_key_base58 = codes "1"; private_seed = 7 ∷ 7 ∷ [] },
      )
      ∷ [];
  valid =
      record {
        name = codes "good";
        key = codes "k";
        message = codes "hi";
        signature = 7 ∷ 7 ∷ [];
        expected_error = none;
      }
      ∷ [];
  invalid =
      record {
        name = codes "bad";
        key = codes "k";
        message = codes "hi";
        signature = 7 ∷ 7 ∷ [];
        expected_error = some SiwsErrors.Sentinel.expired;
      }
      ∷ [];
}

parse_iff_example :
    (parse unmarshal unary [] ≡ loaded corpus) ↔ IsCorpusOf unmarshal unary [] corpus
parse_iff_example = parse_iff unmarshal unary [] corpus

parses : parse unmarshal unary [] ≡ loaded corpus
unfolding parse unary equal delete
parses = refl

quiet : All NoHeader (drop 1 (split text b'\n'))
unfolding to_string label unary split has_suffix equal
quiet = (
  refl,
  (
    refl,
    (
      refl,
      (
        refl,
        (refl, (refl, (refl, (refl, (refl, (refl, (refl, (refl, (refl, (refl, (refl, tt))))))))))),
      ),
    ),
  ),
)

extract-parse_message_example : extract_domain_nonce text ≡ (codes "a.io", codes "abcd1234")
extract-parse_message_example = extract-parse_message unary text message text_parses quiet
