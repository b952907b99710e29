-- ===== src/Tests/Siwx.antt =====
-- The package siwx and the adapter at the same message.
use siwx_go.Base.{
  ℕ, ◌+◌, List, [], ◌∷◌, map, codes, true, none, some, replicate, ◌≡◌, ◌≢◌, ◌↔◌, refl, arith,
}
use siwx_go.Siwx.Caip.RoundTrip.{IsAccount, parse_caip10_iff}
use siwx_go.Siwx.Caip.{Caip2, Caip10, parsed, parse_caip10, string10}
use siwx_go.Siwx.Errors.{returned}
use siwx_go.Siwx.Observer as Observers
use siwx_go.Siwx.Observer.FanOut.{alone, fan_out_alone}
use siwx_go.Siwx.Observer.{Event, CheckName, check_result, Observer, fan_out_all}
use siwx_go.Siwx.Registry as Registries
use siwx_go.Siwx.Registry.Trace.{VerifierLaws, IsTrace, verify-IsTrace}
use siwx_go.Siwx.Registry.{find, register}
use siwx_go.Siwx.Checks.Trail.{IsTrail, check_order}
use siwx_go.Siwx.Solana.Checks.{run_checks-IsTrail}
use siwx_go.Siwx.Solana.Laws.{adapter-VerifierLaws}
use siwx_go.Siwx.Solana.Refines.{IsVerified, verify_iff}
use siwx_go.Siwx.Solana.{Entry, entries, identity_of, run_checks, verify, adapter}
use siwx_go.Siwx.Verifier.{Clock, nop_observer, nil, VerifyOpts, Verifier}
use siwx_go.Tests.Clock.{unary, known_signature}
use siwx_go.Tests.Siws.{message, text, signature}

abbrev mainnet : Caip2
mainnet = record { namespace = codes "solana"; reference = codes "mainnet" }

abbrev account : Caip10
account = record { chain_id = mainnet; address = codes "11111111" }

parse_caip10_iff_example :
    (parse_caip10 (codes "solana:mainnet:11111111") ≡ parsed account)
    ↔ ((codes "solana:mainnet:11111111" ≡ string10 account) × IsAccount account)
parse_caip10_iff_example = parse_caip10_iff (codes "solana:mainnet:11111111") account

-- One observer counts its events, the other panics at each.
abbrev counter : Observer ℕ
counter = record {
  on_verify_attempt = λ a n d c s. Observers.returned (s + 1);
  on_parse_result = λ a p e m s. Observers.returned (s + 1);
  on_check_result = λ a c p s. Observers.returned (s + 1);
  on_verify_result = λ a p e n s. Observers.returned (s + 1);
  state = 0;
}

abbrev fragile : Observer ℕ
fragile = record {
  on_verify_attempt = λ a n d c s. Observers.panicking (s + 7);
  on_parse_result = λ a p e m s. Observers.panicking (s + 7);
  on_check_result = λ a c p s. Observers.panicking (s + 7);
  on_verify_result = λ a p e n s. Observers.panicking (s + 7);
  state = 0;
}

abbrev two_events : List Event
two_events = check_result [] CheckName.domain true ∷ check_result [] CheckName.nonce true ∷ []

fan_out_alone_example :
    fan_out_all two_events (fragile ∷ counter ∷ [])
    ≡ Observers.returned (map (alone two_events) (fragile ∷ counter ∷ []))
fan_out_alone_example = fan_out_alone two_events (fragile ∷ counter ∷ [])

abbrev solana : Verifier
solana = adapter known_signature unary entries

abbrev steady : Clock
steady n = 5

abbrev opts : VerifyOpts
opts = record {
  expected_domain = codes "a.io";
  expected_nonce = codes "abcd1234";
  observer = nop_observer;
  clock = some steady;
  attempt_id = codes "a1";
}

abbrev no_options : VerifyOpts
no_options = record opts { observer = nil; clock = none; attempt_id = [] }

verify-IsTrace_example :
    IsTrace steady (replicate 16 171) (solana ∷ []) mainnet text signature no_options (
      Registries.verify steady
        (some (replicate 16 171))
        (solana ∷ [])
        mainnet
        text
        signature
        no_options)
verify-IsTrace_example =
    verify-IsTrace steady (some (replicate 16 171)) (solana ∷ []) mainnet text signature no_options
      (replicate 16 171) (adapter-VerifierLaws known_signature unary entries signature, tt) refl
      (λ h. cc)

run_checks-IsTrail_example :
    IsTrail
      (codes "a1")
      check_order
      (run_checks known_signature unary entries message text signature opts)
run_checks-IsTrail_example =
    run_checks-IsTrail opts (λ h. cc) known_signature unary entries steady message text signature
      refl

abbrev swapped : List Entry → List Entry
swapped (p ∷ q ∷ ps) = q ∷ p ∷ ps
swapped ps = ps

abbrev pub another_order : List Entry
another_order = swapped entries

adapter-VerifierLaws_example : VerifierLaws signature solana
adapter-VerifierLaws_example = adapter-VerifierLaws known_signature unary entries signature

observed : opts.observer ≢ nil
observed h = cc

verify_iff_example :
    ((verify known_signature unary entries text signature opts).outcome
      ≡ returned (identity_of message))
    ↔ IsVerified known_signature unary entries steady opts observed refl text signature
        (identity_of message)
verify_iff_example =
    verify_iff known_signature unary entries steady opts observed refl text signature
      (identity_of message) (omega arith)
