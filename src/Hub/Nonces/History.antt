-- ===== src/Hub/Nonces/History.antt =====
-- examples/hub/stores.go against contracts/contracts.go (`NonceStore`): the store by the calls that it
-- has been given. The contract speaks of the past of a nonce only: there is no map in it, and
-- nothing is swept.
use siwx_go.Base.{
  ℕ, ◌+◌, ◌≤◌, ◌<◌, List, [], ◌∷◌, Bytes, false, Option, none, some, if◌then◌else◌, equal,
  equal_iff, ltb, ◌≡◌, ◌↔◌, refl, sym, ap, ◌∙◌, arith, Bool-cases, Option-cases, ◌⊎◌, inl, inr,
  ltb→lt, ltb-false→le,
}
use mathlib.Core.Path.{subst}
use siwx_go.Contracts.Nonces.{Call, issues, burns, promised, InOrder}
use siwx_go.Go.Hex.{hex_encode}
use siwx_go.Go.Maps.{lookup, delete, lookup-delete, lookup-insert_other, lookup-delete_other}
use siwx_go.Hub.Nonces.{NonceStore, burned, is_over, sweep, issue, burn}
use siwx_go.Hub.Nonces.SingleUse as SingleUse

-- The store after the calls, the latest first, from `newNonceStore` on.
abbrev pub after : List Call → NonceStore
after [] = []
after (issues random swept now ttl ∷ past) = (issue random swept now ttl (after past)).1
after (burns nonce now ∷ past) = (burn nonce now (after past)).1

-- A key stands once.
abbrev IsMap : NonceStore → Type 0
IsMap [] = Unit
IsMap ((k, v) ∷ m) = (lookup m k ≡ none) × IsMap m

delete-IsMap : (m : NonceStore) (k : Bytes) → IsMap m → IsMap (delete m k)
unfolding delete
delete-IsMap [] k h = tt
delete-IsMap ((j, v) ∷ m) k (fresh, h) = elim (Bool-cases (equal j k)) [
  | inl e ↦ rw e (delete-IsMap m k h)
  | inr e ↦ rw e (SingleUse.lookup-delete_other m k j fresh, delete-IsMap m k h)
]

sweep-IsMap : (now : ℕ) (m : NonceStore) → IsMap m → IsMap (sweep now m)
unfolding sweep
sweep-IsMap now [] h = tt
sweep-IsMap now ((j, v) ∷ m) (fresh, h) = elim (Bool-cases (ltb v now)) [
  | inl e ↦ rw e (sweep-IsMap now m h)
  | inr e ↦ rw e (SingleUse.lookup-sweep now m j fresh, sweep-IsMap now m h)
]

burn-delete :
    (nonce : Bytes) (now : ℕ) (s : NonceStore)
    → ((burn nonce now s).1 ≡ s) ⊎ ((burn nonce now s).1 ≡ delete s nonce)
unfolding burn
burn-delete nonce now s = elim (Option-cases (lookup s nonce)) [
  | inl e ↦ inl (rw (burn, e) refl)
  | inr (x, e) ↦ inr (rw (burn, e) refl)
]

burn-IsMap : (nonce : Bytes) (now : ℕ) (s : NonceStore) → IsMap s → IsMap (burn nonce now s).1
burn-IsMap nonce now s h = elim (burn-delete nonce now s) [
  | inl e ↦ subst IsMap (sym e) h
  | inr e ↦ subst IsMap (sym e) (delete-IsMap s nonce h)
]

pub after-IsMap : (past : List Call) → IsMap (after past)
unfolding issue
after-IsMap [] = tt
after-IsMap (issues none _ _ _ ∷ past) = after-IsMap past
after-IsMap (issues (some b) swept now ttl ∷ past) =
    let swept_map = sweep-IsMap swept (after past) (after-IsMap past) in
    (
      lookup-delete (sweep swept (after past)) (hex_encode b),
      delete-IsMap _ (hex_encode b) swept_map,
    )
after-IsMap (burns nonce now ∷ past) = burn-IsMap nonce now (after past) (after-IsMap past)

-- What a sweep leaves of an entry.
abbrev unless_over : ℕ → Option ℕ → Option ℕ
unless_over now none = none
unless_over now (some x) = if is_over now x then none else some x

lookup-sweep :
    (now : ℕ) (m : NonceStore) (n : Bytes)
    → IsMap m
    → lookup (sweep now m) n ≡ unless_over now (lookup m n)
unfolding sweep lookup
lookup-sweep now [] n h = refl
lookup-sweep now ((j, v) ∷ m) n (fresh, h) = elim (Bool-cases (ltb v now)) [
  | inl over ↦ elim (Bool-cases (equal j n)) [
    | inl e ↦
        let same : lookup m n ≡ none = rw (← (equal_iff j n).0 e) fresh in
        rw (over, e) (rw over (SingleUse.lookup-sweep now m n same))
    | inr e ↦ rw (over, e) (lookup-sweep now m n h)
  ]
  | inr alive ↦ elim (Bool-cases (equal j n)) [
    | inl e ↦ rw (alive, e) (rw alive refl)
    | inr e ↦ rw (alive, e) (lookup-sweep now m n h)
  ]
]

-- The map holds what is promised, but for nonces that are over and have been swept.
data Holds (t : ℕ) (stored owed : Option ℕ) : Type 0 where
  same : stored ≡ owed → Holds t stored owed
  dropped : (x : ℕ) → stored ≡ none → owed ≡ some x → x < t → Holds t stored owed

Holds-sweep :
    (now t : ℕ) (o owed : Option ℕ) → now ≤ t → Holds now o owed → Holds t (unless_over now o) owed
Holds-sweep now t none owed h (same e) = same e
Holds-sweep now t (some x) owed h (same e) = elim (Bool-cases (ltb x now)) [
  | inl over ↦ dropped x (rw over refl) (sym e) (let y = ltb→lt x now over in omega arith)
  | inr alive ↦ same (rw alive e)
]
Holds-sweep now t none owed h (dropped x e f l) = dropped x refl f (omega arith)
Holds-sweep now t (some y) owed h (dropped x e f l) = absurd (cc)

Holds-later : {s t : ℕ} {o owed : Option ℕ} → s ≤ t → Holds s o owed → Holds t o owed
Holds-later h (same e) = same e
Holds-later h (dropped x e f l) = dropped x e f (omega arith)

lookup-burn_other :
    (nonce : Bytes) (now : ℕ) (s : NonceStore) (n : Bytes)
    → equal nonce n ≡ false
    → lookup (burn nonce now s).1 n ≡ lookup s n
lookup-burn_other nonce now s n ne = elim (burn-delete nonce now s) [
  | inl e ↦ ap (λ m. lookup m n) e
  | inr e ↦ ap (λ m. lookup m n) e ∙ lookup-delete_other s nonce n ne
]

-- The map after any calls, against what they promise.
after-Holds :
    (past : List Call) (t : ℕ) (n : Bytes)
    → InOrder t past
    → Holds t (lookup (after past) n) (promised past n)
unfolding issue lookup
after-Holds [] t n h = same refl
after-Holds (issues none swept now ttl ∷ past) t n (h, k, o) =
    Holds-later (omega arith) (after-Holds past swept n o)
after-Holds (issues (some b) swept now ttl ∷ past) t n (h, k, o) =
    let earlier : Holds t (lookup (sweep swept (after past)) n) (promised past n) =
      rw (lookup-sweep swept (after past) n (after-IsMap past))
        (Holds-sweep swept t _ _ (omega arith) (after-Holds past swept n o)) in
    elim (Bool-cases (equal (hex_encode b) n)) [
      | inl e ↦ same (rw (e) refl)
      | inr e ↦
          rw (lookup-insert_other (sweep swept (after past)) (hex_encode b) n (now + ttl) e, e)
            earlier
    ]
after-Holds (burns nonce now ∷ past) t n (h, o) = elim (Bool-cases (equal nonce n)) [
  | inl e ↦
      let gone : lookup (burn nonce now (after past)).1 n ≡ none =
        rw (← (equal_iff nonce n).0 e) (SingleUse.lookup-burn nonce now (after past)) in
      same (rw (gone, e) refl)
  | inr e ↦
      rw (lookup-burn_other nonce now (after past) n e, e)
        (Holds-later h (after-Holds past now n o))
]

burn-burned :
    (n : Bytes) (t : ℕ) (s : NonceStore)
    → ((burn n t s).0 ≡ burned) ↔ ((x : ℕ) × (lookup s n ≡ some x) × (t ≤ x))
unfolding burn
burn-burned n t s = elim (Option-cases (lookup s n)) [
  | inl e ↦ rw (burn, e) (λ h. absurd cc, λ (x, f, l). absurd cc)
  | inr (y, e) ↦ elim (Bool-cases (ltb y t)) [
    | inl over ↦
        rw (burn, e, over)
          (
            λ h. absurd cc,
            λ (x, f, l). absurd (let z = ltb→lt y t over in let w : y ≡ x = cc in omega arith),
          )
    | inr alive ↦ rw (burn, e, alive) (λ h. (y, refl, ltb-false→le y t alive), λ r. refl)
  ]
]

-- After any calls of `Issue` and `Burn` on a new store, under a clock that does not run backwards,
-- `Burn` accepts a nonce exactly if it has been issued, has not been burned since, whatever that
-- burn answered, and its time is not over. The sweeps of other calls make no difference.
pub burn_iff :
    (past : List Call) (n : Bytes) (t : ℕ)
    → InOrder t past
    → ((burn n t (after past)).0 ≡ burned) ↔ ((x : ℕ) × (promised past n ≡ some x) × (t ≤ x))
burn_iff past n t o =
    let (to, back) = burn-burned n t (after past) in
    elim (after-Holds past t n o) [
      | same e ↦ rw (← e) (to, back)
      | dropped x e f l ↦ (
        λ h. let (y, g, m) = to h in absurd (cc),
        λ (y, g, m). absurd (let w : x ≡ y = cc in omega arith),
      )
    ]
