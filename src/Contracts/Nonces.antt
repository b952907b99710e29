-- ===== src/Contracts/Nonces.antt =====
-- contracts/contracts.go: the interface `NonceStore`, and what a client can rely on.
use siwx_go.Base.{
  ℕ, ◌+◌, ◌≤◌, List, [], ◌∷◌, ◌++◌, Bytes, false, Option, none, some, if◌then◌else◌, equal,
  equal_refl, ◌≡◌, ◌≢◌, ◌↔◌, refl, sym, ◌∙◌, Bool-cases, inl, inr,
}
use siwx_go.Go.Hex.{hex_encode}
use siwx_go.Hub.Nonces.{Burned, burned}

-- An implementation with the state `S`. `Issue` takes what it reads of `rand.Read` and of the clock,
-- in front of its sweep and behind it, and the time to live; `Burn` the reading of its clock.
pub record NonceStore (S : Type 0) : Type 0 where
  pub start : S
  pub issue : Option Bytes → ℕ → ℕ → ℕ → S → Option Bytes × S
  pub burn : Bytes → ℕ → S → Burned × S

-- The calls of the interface, each with what it reads of `rand.Read` and of the clock.
pub data Call : Type 0 where
  issues : (random : Option Bytes) (swept now ttl : ℕ) → Call
  burns : (nonce : Bytes) (now : ℕ) → Call

-- Until when a nonce can be burned: it must have been issued, and not burned since.
abbrev pub promised : List Call → Bytes → Option ℕ
promised [] n = none
promised (issues none _ _ _ ∷ past) n = promised past n
promised (issues (some b) _ now ttl ∷ past) n =
    if equal (hex_encode b) n then some (now + ttl) else promised past n
promised (burns nonce _ ∷ past) n = if equal nonce n then none else promised past n

-- The clock does not run backwards: `t` is not before any reading.
abbrev pub InOrder : ℕ → List Call → Type 0
InOrder t [] = Unit
InOrder t (issues _ swept now _ ∷ past) = (now ≤ t) × (swept ≤ now) × InOrder swept past
InOrder t (burns _ now ∷ past) = (now ≤ t) × InOrder now past

module _ {S : Type 0} (store : NonceStore S) where
  -- The store after the calls, the latest first.
  abbrev pub state_after : List Call → S
  state_after [] = store.start
  state_after (issues random swept now ttl ∷ past) =
      (store.issue random swept now ttl (state_after past)).1
  state_after (burns nonce now ∷ past) = (store.burn nonce now (state_after past)).1

  -- "Burn returns ErrNonceMismatch if the nonce is unknown, expired, or already burned."
  pub record NonceStoreLaws : Type 0 where
    pub accepts :
        (past : List Call) (n : Bytes) (t : ℕ)
        → InOrder t past
        → ((store.burn n t (state_after past)).0 ≡ burned)
          ↔ ((x : ℕ) × (promised past n ≡ some x) × (t ≤ x))

-- No call of these issues the nonce.
abbrev pub NotIssued : Bytes → List Call → Type 0
NotIssued n [] = Unit
NotIssued n (issues none _ _ _ ∷ past) = NotIssued n past
NotIssued n (issues (some b) _ _ _ ∷ past) = (equal (hex_encode b) n ≡ false) × NotIssued n past
NotIssued n (burns _ _ ∷ past) = NotIssued n past

promised-burns :
    (n : Bytes) (t : ℕ) (since past : List Call)
    → NotIssued n since
    → promised (since ++ burns n t ∷ past) n ≡ none
promised-burns n t [] past h = rw (equal_refl n) refl
promised-burns n t (issues none _ _ _ ∷ since) past h = promised-burns n t since past h
promised-burns n t (issues (some b) _ _ _ ∷ since) past (e, h) =
    rw e (promised-burns n t since past h)
promised-burns n t (burns k _ ∷ since) past h = elim (Bool-cases (equal k n)) [
  | inl e ↦ rw e refl
  | inr e ↦ rw e (promised-burns n t since past h)
]

-- A store that keeps the contract takes no nonce twice: once `Burn` has been called on it, no later
-- `Burn` accepts it until it is issued again, under a clock that does not run backwards.
pub no_second_burn :
    {S : Type 0} (store : NonceStore S) (laws : NonceStoreLaws store) (n : Bytes) (t u : ℕ)
    (since past : List Call)
    → InOrder u (since ++ burns n t ∷ past)
    → NotIssued n since
    → (store.burn n u (state_after store (since ++ burns n t ∷ past))).0 ≢ burned
no_second_burn store laws n t u since past ordered fresh h =
    let (x, e, _) = (laws.accepts (since ++ burns n t ∷ past) n u ordered).0 h in
    none_not (sym (promised-burns n t since past fresh) ∙ e)
  where
    none_not : {x : ℕ} → ¬ (none ≡ some x)
    none_not e = cc
