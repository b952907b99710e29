-- ===== src/Siwx/Registry/Defaults.antt =====
-- siwx/registry.go: the defaults at the top of `Verify`.
use siwx_go.Base.{
  [], ◌∷◌, Bytes, Option, none, some, equal, equal_iff, ◌≡◌, ◌≢◌, refl, Bool-cases, inl, inr, ◌⊎◌,
}
use siwx_go.Go.Hex.{hex_encode}
use siwx_go.Siwx.Errors.{returned}
use siwx_go.Siwx.Registry.{new_attempt_id, with_defaults, observer_or_nop, clock_or_real}
use siwx_go.Siwx.Verifier.{Clock, ObserverField, nil, nop_observer, observer, VerifyOpts}

-- What is given, or the default where it is missing.
abbrev OrElse : {A : Type 0} → A → A → A → A → Type 0
OrElse given missing default result =
    ((given ≡ missing) × (result ≡ default)) ⊎ ((given ≢ missing) × (result ≡ given))

-- The options, with the system's clock and an identifier of random bytes where they leave them out.
pub record IsCompleted (wall : Clock) (bytes : Bytes) (opts set : VerifyOpts) : Type 0 where
  pub domain_kept : set.expected_domain ≡ opts.expected_domain
  pub nonce_kept : set.expected_nonce ≡ opts.expected_nonce
  pub observer_is : OrElse opts.observer nil nop_observer set.observer
  pub clock_is : OrElse opts.clock none (some wall) set.clock
  pub id_is : OrElse opts.attempt_id [] (hex_encode bytes) set.attempt_id
  pub id_given : set.attempt_id ≢ []

module _ (wall : Clock) (random : Option Bytes) where
  -- The options that `Verify` goes on with.
  pub record AreSet (bytes : Bytes) (opts set : VerifyOpts) : Type 0 where
    pub are : with_defaults wall random opts ≡ record { events = []; outcome = returned set }
    pub completed : IsCompleted wall bytes opts set
    pub observed : set.observer ≢ nil
    pub timed : set.clock ≢ none

  pub observer_or_nop-given : (o : ObserverField) → observer_or_nop o ≢ nil
  observer_or_nop-given nil h = cc
  observer_or_nop-given nop_observer h = cc
  observer_or_nop-given (observer n) h = cc

  observer-OrElse : (o : ObserverField) → OrElse o nil nop_observer (observer_or_nop o)
  observer-OrElse nil = inl (refl, refl)
  observer-OrElse nop_observer = inr (λ h. cc, refl)
  observer-OrElse (observer n) = inr (λ h. cc, refl)

  clock_or_real-given : (c : Option Clock) → clock_or_real wall c ≢ none
  clock_or_real-given none h = cc
  clock_or_real-given (some c) h = cc

  clock-OrElse : (c : Option Clock) → OrElse c none (some wall) (clock_or_real wall c)
  clock-OrElse none = inl (refl, refl)
  clock-OrElse (some c) = inr (λ h. cc, refl)

  with_id : VerifyOpts → Bytes → VerifyOpts
  with_id opts id = record opts {
    observer = observer_or_nop opts.observer;
    clock = clock_or_real wall opts.clock;
    attempt_id = id;
  }

  AreSet-with :
      (bytes : Bytes) (opts : VerifyOpts) (id : Bytes)
      → with_defaults wall random opts
        ≡ record { events = []; outcome = returned (with_id opts id) }
      → OrElse opts.attempt_id [] (hex_encode bytes) id
      → id ≢ []
      → AreSet bytes opts (with_id opts id)
  unfolding with_id
  AreSet-with bytes opts id h is ne = record {
    are = h;
    completed = record {
      domain_kept = refl;
      nonce_kept = refl;
      observer_is = observer-OrElse opts.observer;
      clock_is = clock-OrElse opts.clock;
      id_is = is;
      id_given = ne;
    };
    observed = observer_or_nop-given opts.observer;
    timed = clock_or_real-given opts.clock;
  }

  hex_encode-given : (b : Bytes) → b ≢ [] → hex_encode b ≢ []
  unfolding hex_encode
  hex_encode-given [] ne h = ne refl
  hex_encode-given (c ∷ b) ne h = cc

  pub defaults-AreSet :
      (bytes : Bytes)
      → random ≡ some bytes
      → bytes ≢ []
      → (opts : VerifyOpts) → (set : VerifyOpts) × AreSet bytes opts set
  unfolding with_defaults new_attempt_id with_id
  defaults-AreSet bytes h ne opts = elim (Bool-cases (equal opts.attempt_id [])) [
    | inl e ↦ (
      with_id opts (hex_encode bytes),
      AreSet-with bytes opts (hex_encode bytes) (rw (with_defaults, e, new_attempt_id, h))
          (inl ((equal_iff opts.attempt_id []).0 e, refl)) (hex_encode-given bytes ne),
    )
    | inr e ↦
        let given : opts.attempt_id ≢ [] = λ q. cc (e, (equal_iff opts.attempt_id []).1 q) in
        (
          with_id opts opts.attempt_id,
          AreSet-with bytes opts opts.attempt_id (rw (with_defaults, e)) (inr (given, refl)) given,
        )
  ]
