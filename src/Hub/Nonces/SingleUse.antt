-- ===== src/Hub/Nonces/SingleUse.antt =====
-- examples/hub/stores.go: calls of `Burn` and `Issue` in sequence.
use siwx_go.Base.{
  ℕ, ◌+◌, [], ◌∷◌, Bytes, Bool, none, some, if◌then◌else◌, equal, leb, ◌≡◌, refl, arith,
  Option-cases, inl, inr,
}
use siwx_go.Go.Maps.{lookup, delete, lookup-delete, lookup-insert}
use siwx_go.Go.Hex.{hex_encode}
use siwx_go.Hub.Nonces.{NonceStore, burned, nonce_mismatch, sweep, issue, burn}

pub burn_absent :
    (n : Bytes) (t : ℕ) (s : NonceStore) → lookup s n ≡ none → burn n t s ≡ (nonce_mismatch, s)
unfolding burn
burn_absent n t s h = rw (burn, h)

pub lookup-burn : (n : Bytes) (t : ℕ) (s : NonceStore) → lookup ((burn n t s).1) n ≡ none
unfolding burn
lookup-burn n t s = elim (Option-cases (lookup s n)) [
  | inl e ↦ rw (burn, e) e
  | inr (x, e) ↦ rw (burn, e) (lookup-delete s n)
]

-- Steps of other callers between two calls of `Burn`: issues of other nonces, and burns.
pub data Step (n : Bytes) (s s' : NonceStore) : Type 0 where
  issued :
      (b : Bytes) (swept now ttl : ℕ)
      → equal (hex_encode b) n ≡ Bool.false
      → s' ≡ (issue (some b) swept now ttl s).1
      → Step n s s'
  burnt : (k : Bytes) (now : ℕ) → s' ≡ (burn k now s).1 → Step n s s'

-- Any number of such steps.
pub data Steps (n : Bytes) : NonceStore → NonceStore → Type 0 where
  stop : (s : NonceStore) → Steps n s s
  next : (s mid s' : NonceStore) → Step n s mid → Steps n mid s' → Steps n s s'

pub lookup-sweep :
    (now : ℕ) (s : NonceStore) (n : Bytes) → lookup s n ≡ none → lookup (sweep now s) n ≡ none
unfolding lookup sweep
lookup-sweep now [] n h = refl
lookup-sweep now ((k, x) ∷ s) n h = ground (arith, lookup-sweep now s n)

pub lookup-delete_other :
    (s : NonceStore) (k n : Bytes) → lookup s n ≡ none → lookup (delete s k) n ≡ none
unfolding lookup delete
lookup-delete_other [] k n h = refl
lookup-delete_other ((j, x) ∷ s) k n h = ground (arith, lookup-delete_other s k n)

lookup_issued :
    (b : Bytes) (swept now ttl : ℕ) (n : Bytes) (s : NonceStore)
    → equal (hex_encode b) n ≡ Bool.false
    → lookup s n ≡ none
    → lookup ((issue (some b) swept now ttl s).1) n ≡ none
unfolding issue lookup
lookup_issued b swept now ttl n s other h =
    rw other (lookup-delete_other (sweep swept s) (hex_encode b) n (lookup-sweep swept s n h))

pub Step-absent :
    (n : Bytes) (s s' : NonceStore) → Step n s s' → lookup s n ≡ none → lookup s' n ≡ none
unfolding burn
Step-absent n s s' (issued b swept now ttl other e) h =
    rw e (lookup_issued b swept now ttl n s other h)
Step-absent n s s' (burnt k now e) h = elim (Option-cases (lookup s k)) [
  | inl f ↦ rw (e, burn, f) h
  | inr (x, f) ↦ rw (e, burn, f) (lookup-delete_other s k n h)
]

Steps-absent :
    (n : Bytes) (s s' : NonceStore) → Steps n s s' → lookup s n ≡ none → lookup s' n ≡ none
Steps-absent n s s' (stop _) h = h
Steps-absent n s s' (next _ mid _ st rest) h = Steps-absent n mid s' rest (Step-absent n s mid st h)

-- Once `Burn` has been called on a nonce, whatever it answered, every later call on it answers
-- `ErrNonceMismatch`, whatever is burned and whichever other nonces are issued in between.
pub burn_once :
    (n : Bytes) (t u : ℕ) (s later : NonceStore)
    → Steps n (burn n t s).1 later
    → burn n u later ≡ (nonce_mismatch, later)
burn_once n t u s later st = burn_absent n u later (Steps-absent n _ later st (lookup-burn n t s))

-- A nonce that has just been issued is burned up to the end of its time, and refused after it.
pub burn-issue :
    (b : Bytes) (swept now ttl u : ℕ) (s : NonceStore)
    → (burn (hex_encode b) u (issue (some b) swept now ttl s).1).0
      ≡ (if leb u (now + ttl) then burned else nonce_mismatch)
unfolding issue burn
burn-issue b swept now ttl u s =
    rw (burn, lookup-insert (sweep swept s) (hex_encode b) (now + ttl)) (ground arith)
