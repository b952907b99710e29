-- ===== src/Hub/Nonces.antt =====
-- examples/hub/stores.go: `memNonceStore`. A call of `Issue` or `Burn` holds the lock, so it is one
-- step on the map.
pub mod SingleUse
pub mod History
pub mod Sizes
use siwx_go.Base.{ℕ, ◌+◌, List, [], ◌∷◌, Bytes, Bool, Option, none, some, if◌then◌else◌, ltb}
use siwx_go.Go.Maps.{lookup, delete, insert}
use siwx_go.Go.Hex.{hex_encode}

-- The nonces, each with the instant `expires` of its entry.
abbrev pub NonceStore : Type 0
NonceStore = List (Bytes × ℕ)

pub data Burned : Type 0 where
  burned nonce_mismatch : Burned

-- `now.After(e.expires)`
abbrev pub is_over : ℕ → ℕ → Bool
is_over now expires = ltb expires now

-- `sweep`
unfoldable pub sweep : ℕ → NonceStore → NonceStore
sweep now [] = []
sweep now ((k, expires) ∷ s) =
    let rest = sweep now s in if is_over now expires then rest else (k, expires) ∷ rest

-- `Issue`: `random` is what `rand.Read` gives, `swept` and `now` are the two readings of the clock.
unfoldable pub issue : Option Bytes → ℕ → ℕ → ℕ → NonceStore → Option Bytes × NonceStore
unfolding sweep
issue none swept now ttl s = (none, s)
issue (some b) swept now ttl s =
    let nonce = hex_encode b in (some nonce, insert (sweep swept s) nonce (now + ttl))

-- `Burn`
unfoldable pub burn : Bytes → ℕ → NonceStore → Burned × NonceStore
burn nonce now s = elim (lookup s nonce) [
  | none ↦ (nonce_mismatch, s)
  | some expires ↦ (if is_over now expires then nonce_mismatch else burned, delete s nonce)
]
