-- ===== src/Siwx/Registry/Reports.antt =====
-- siwx/registry.go: what a `VerifyResult` says of the outcome of a call.
use mathlib.Core.Path.{subst}
use siwx_go.Base.{
  List, [], ◌∷◌, ◌++◌, All, Bool, true, false, ◌≡◌, refl, Bool-cases, inl, inr, append_assoc,
  append-nil, sym, ◌∙◌,
}
use siwx_go.Siwx.Errors.{Sentinel, Error, is, Outcome, returned, failed}
use siwx_go.Siwx.Observer.{Terminal, known, no_error, other}
use siwx_go.Siwx.Registry.{sentinels, first_of, sentinel_for}
use siwx_go.Siwx.Verifier.{Identity}

-- The sentinels, from the one that counts most.
abbrev precedence : List Sentinel
precedence =
    Sentinel.malformed ∷ Sentinel.bad_signature ∷ Sentinel.expired ∷ Sentinel.not_yet_valid
    ∷ Sentinel.domain_mismatch ∷ Sentinel.nonce_mismatch ∷ Sentinel.unsupported_namespace
    ∷ Sentinel.contract_validation_failed ∷ Sentinel.contract_wallet_unsupported ∷ Sentinel.rpc ∷ []

abbrev Lacks : Error → List Sentinel → Type 0
Lacks e ss = All (λ s. is e s ≡ false) ss

-- A value is a success without an error; an error is a failure, under the first sentinel that it
-- wraps, or as another error where it wraps none. There is no report of a panic.
pub data Reports : Outcome Identity → Bool → Terminal → Type 0 where
  success : (id : Identity) → Reports (returned id) true no_error
  named :
      (e : Error) (s : Sentinel) (before behind : List Sentinel)
      → before ++ s ∷ behind ≡ precedence
      → Lacks e before
      → is e s ≡ true
      → Reports (failed e) false (known s)
  unnamed : (e : Error) → Lacks e precedence → Reports (failed e) false other

Lacks-snoc :
    (e : Error) (ss : List Sentinel) (s : Sentinel)
    → Lacks e ss
    → is e s ≡ false
    → Lacks e (ss ++ s ∷ [])
Lacks-snoc e [] s l h = (h, tt)
Lacks-snoc e (t ∷ ss) s (x, l) h = (x, Lacks-snoc e ss s l h)

first_of-Reports :
    (e : Error) (before ss : List Sentinel)
    → before ++ ss ≡ precedence
    → Lacks e before
    → Reports (failed e) false (first_of ss e)
unfolding first_of
first_of-Reports e before [] p l =
    Reports.unnamed e (subst (Lacks e) (sym (append-nil before) ∙ p) l)
first_of-Reports e before (s ∷ ss) p l = elim (Bool-cases (is e s)) [
  | inl h ↦ rw (first_of, h) (Reports.named e s before ss p l h)
  | inr h ↦
      rw (first_of, h)
        (first_of-Reports e (before ++ s ∷ []) ss (append_assoc before (s ∷ []) ss ∙ p)
          (Lacks-snoc e before s l h))
]

pub sentinel_for-Reports : (e : Error) → Reports (failed e) false (sentinel_for e)
unfolding sentinel_for
sentinel_for-Reports e = first_of-Reports e [] sentinels refl tt
