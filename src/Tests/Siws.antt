-- ===== src/Tests/Siws.antt =====
-- The package siws at one message.
use siwx_go.Base.{
  ◌≤◌, [], ◌∷◌, Bytes, codes, true, some, if◌then◌else◌, length, replicate, equal, ◌≡◌, ◌≢◌, ◌↔◌,
  refl, arith,
}
use siwx_go.Go.Strings.{split, has_prefix, all_bytes}
use siwx_go.Siws.Base58.RoundTrip.{decode-encode, encode-decode}
use siwx_go.Siws.Base58.{decode_base58, encode_base58}
use siwx_go.Siws.Errors.{sentinel, ok, err, panicked, ◌>>=◌, wrong_nonce, too_early, too_late}
use siwx_go.Siws.Grammar.Returns.{parse_message-Calm}
use siwx_go.Siws.Grammar.Sound.{parse_lines_iff}
use siwx_go.Siws.Grammar.{IsMessageText}
use siwx_go.Siws.Message.WellFormed.{IsWellFormed, HasExactTimes}
use siwx_go.Siws.Fields.{is_field_prefix, valid_nonce}
use siwx_go.Siws.Message.{Message, label, to_string}
use siwx_go.Siws.Parse.RoundTrip.{parse-to_string}
use siwx_go.Siws.Parse.{max_message_bytes, parse_message, parse_lines}
use siwx_go.Siws.Verify.Accepts.{Accepts, verify_raw_of_Accepts, verify_raw_iff}
use siwx_go.Siws.Verify.Order.{
  signature_last, window, before_window, past_window, verify-verify_raw,
}
use siwx_go.Siws.Verify.Returns.{verify_raw-Calm}
use siwx_go.Siws.Verify.{VerifyOpts, is_early, is_late, check_message, verify_raw, verify}
use siwx_go.Tests.Clock.{unary, unary-TimeLaws, known_signature}

abbrev pub system_program : Bytes
system_program = replicate 32 b'1'

abbrev pub message : Message
message = record {
  domain = codes "a.io";
  address = system_program;
  statement = codes "Hello";
  uri = codes "https://a.io";
  version = codes "1";
  chain_id = codes "devnet";
  nonce = codes "abcd1234";
  issued_at = 1;
  expiration_time = some 9;
  not_before = some 2;
  request_id = codes "r7";
  resources = codes "https://a.io/x" ∷ [];
}

abbrev pub text : Bytes
text = to_string unary message

system_program_key : decode_base58 system_program ≡ ok (replicate 32 0)
unfolding decode_base58
system_program_key = refl

abbrev pub opts : VerifyOpts
opts = record { expected_domain = codes "a.io"; expected_nonce = codes "abcd1234"; now = some 5 }

abbrev pub signature : Bytes
signature = replicate 64 7

message-IsWellFormed : IsWellFormed message
message-IsWellFormed = record {
  domain_ne_nil = λ h. cc;
  domain_line = omega arith;
  address_ne_nil = λ h. cc;
  key = replicate 32 0;
  key_decodes = system_program_key;
  key_size = refl;
  statement_plain = unfold is_field_prefix has_prefix label in refl;
  statement_line = omega arith;
  uri_ne_nil = λ h. cc;
  uri_line = omega arith;
  version_is = refl;
  chain_id_ne_nil = λ h. cc;
  chain_id_line = omega arith;
  nonce_valid = unfold valid_nonce all_bytes in refl;
  request_id_line = omega arith;
  resources_line = (omega arith, tt);
}

message-HasExactTimes : HasExactTimes unary message
unfolding unary
message-HasExactTimes = record {
  issued_at_exact = refl;
  expiration_exact = refl;
  not_before_exact = refl;
}

text_fits : length text ≤ max_message_bytes
unfolding to_string unary label equal
text_fits = omega arith

pub text_parses : parse_message unary text ≡ ok message
text_parses =
    parse-to_string unary unary-TimeLaws message message-IsWellFormed message-HasExactTimes
      text_fits

parse-to_string_example : parse_message unary (to_string unary message) ≡ ok message
parse-to_string_example =
    parse-to_string unary unary-TimeLaws message message-IsWellFormed message-HasExactTimes
      text_fits

message-Accepts : Accepts known_signature unary text signature opts 0 message
message-Accepts = record {
  domain_given = λ h. cc;
  nonce_given = λ h. cc;
  parses = text_parses;
  domain_is = refl;
  started = omega arith;
  not_over = omega arith;
  nonce_is = refl;
  signed = record {
    key = replicate 32 0;
    spells = system_program_key;
    key_size = refl;
    sig_size = refl;
    valid = unfold known_signature equal in refl;
  };
}

pub accepted : verify_raw known_signature unary text signature opts 0 ≡ ok message
accepted = verify_raw_of_Accepts known_signature unary text signature opts 0 message message-Accepts

verify_raw_iff_example :
    (verify_raw known_signature unary text signature opts 0 ≡ ok message)
    ↔ Accepts known_signature unary text signature opts 0 message
verify_raw_iff_example = verify_raw_iff known_signature unary text signature opts 0 message

parse_lines_iff_example :
    (parse_lines unary (split text b'\n') ≡ ok message)
    ↔ IsMessageText unary (split text b'\n') message
parse_lines_iff_example = parse_lines_iff unary (split text b'\n') message

parse_message-Calm_example : parse_message unary (codes "a.io wants") ≢ panicked
parse_message-Calm_example = parse_message-Calm unary (codes "a.io wants")

verify_raw-Calm_example : verify_raw known_signature unary text [] opts 0 ≢ panicked
verify_raw-Calm_example = verify_raw-Calm known_signature unary text [] opts 0

abbrev other_nonce : VerifyOpts
other_nonce = record opts { expected_nonce = codes "zzzz1234" }

wrong_nonce_run : verify_raw known_signature unary text signature other_nonce 0 ≡ err wrong_nonce
unfolding verify_raw check_message is_early is_late equal
wrong_nonce_run = rw text_parses refl

signature_last_example :
    verify_raw (λ key msg sig. true) unary text [] other_nonce 0 ≡ err wrong_nonce
signature_last_example =
    signature_last known_signature (λ key msg sig. true) unary text signature [] other_nonce 0
      wrong_nonce wrong_nonce_run (λ h. unfold sentinel in cc)

window_example :
    verify_raw known_signature unary text signature (record opts { now = some 9 }) 0 ≡ (
      if before_window message.not_before 9
      then err too_early
      else if past_window message.expiration_time 9
      then err too_late
      else ok message)
window_example = window known_signature unary text signature opts 0 9 message accepted

verify-verify_raw_example :
    verify_raw known_signature unary (to_string unary message) signature opts 0
    ≡ (verify known_signature unary message signature opts 0 >>= λ _. ok message)
verify-verify_raw_example =
    verify-verify_raw known_signature unary message signature opts 0 text_parses

decode-encode_example : decode_base58 (encode_base58 (0 ∷ 255 ∷ 7 ∷ [])) ≡ ok (0 ∷ 255 ∷ 7 ∷ [])
decode-encode_example =
    decode-encode (0 ∷ 255 ∷ 7 ∷ []) (omega arith, (omega arith, (omega arith, tt))) (omega arith)

encode-decode_example : encode_base58 (replicate 32 0) ≡ system_program
encode-decode_example = encode-decode system_program (replicate 32 0) system_program_key
