-- ===== src/Hub/Nonces/Sizes.antt =====
-- examples/hub/stores.go: how many nonces the map holds.
use siwx_go.Base.{
  ℕ, ◌+◌, ◌≤◌, [], ◌∷◌, Bytes, Option, none, some, length, equal, ltb, ◌≡◌, arith, inl, inr,
  Bool-cases, Option-cases,
}
use siwx_go.Go.Hex.{hex_encode}
use siwx_go.Go.Maps.{lookup, delete}
use siwx_go.Hub.Nonces.{NonceStore, burned, sweep, issue, burn}
use siwx_go.Hub.Recorder.Bound.{length-delete}

length-sweep : (now : ℕ) (s : NonceStore) → length (sweep now s) ≤ length s
unfolding sweep
length-sweep now [] = omega arith
length-sweep now ((k, x) ∷ s) = elim (Bool-cases (ltb x now)) [
  | inl e ↦ rw e (omega (arith, length-sweep now s))
  | inr e ↦ rw e (omega (arith, length-sweep now s))
]

-- One nonce more at most, and none where none is made.
pub length-issue :
    (random : Option Bytes) (swept now ttl : ℕ) (s : NonceStore)
    → (length (issue random swept now ttl s).1 ≤ length s + 1)
      × ((issue random swept now ttl s).0 ≡ none
          → length (issue random swept now ttl s).1 ≤ length s)
unfolding issue
length-issue none swept now ttl s = (omega arith, λ _. omega arith)
length-issue (some b) swept now ttl s = (
  omega (arith, length-sweep swept s, length-delete (sweep swept s) (hex_encode b)),
  λ h. absurd (cc),
)

length-delete_held :
    (s : NonceStore) (k : Bytes) {x : ℕ} → lookup s k ≡ some x → length (delete s k) + 1 ≤ length s
unfolding lookup delete
length-delete_held [] k h = absurd (cc)
length-delete_held ((j, y) ∷ s) k h = elim (Bool-cases (equal j k)) [
  | inl e ↦ rw e (omega (arith, length-delete s k))
  | inr e ↦ rw e (omega (arith, length-delete_held s k (rw e at h)))
]

-- A nonce that is accepted leaves the map.
pub length-burn :
    (n : Bytes) (now : ℕ) (s : NonceStore)
    → (length (burn n now s).1 ≤ length s)
      × ((burn n now s).0 ≡ burned → length (burn n now s).1 + 1 ≤ length s)
unfolding burn
length-burn n now s = elim (Option-cases (lookup s n)) [
  | inl e ↦ rw (burn, e) (omega arith, λ h. absurd cc)
  | inr (x, e) ↦ rw (burn, e) (length-delete s n, λ _. length-delete_held s n e)
]
