-- ===== src/Siwx/Solana/Errors.antt =====
-- siwx/solana/adapter.go: `mapErr` and the order of its map.
use mathlib.Core.List.{Permᴰ}
use siwx_go.Base.{
  ℕ, List, [], ◌∷◌, All, Bool, true, false, ◌||◌, ◌==◌, if◌then◌else◌, ◌≡◌, refl, sym, ap, ◌∙◌,
  arith, Bool-cases, inl, inr, ==_iff,
}
use siwx_go.Siws.Errors as SiwsErrors
use siwx_go.Siws.Errors.{Reason, sentinel}
use siwx_go.Siwx.Errors.{Sentinel}
use siwx_go.Siwx.Solana.{Entry, entries, address_of, map_err}

-- The sentinel of siwx that stands for one of siws.
abbrev pub translate : SiwsErrors.Sentinel → Sentinel
translate SiwsErrors.Sentinel.malformed = Sentinel.malformed
translate SiwsErrors.Sentinel.bad_signature = Sentinel.bad_signature
translate SiwsErrors.Sentinel.expired = Sentinel.expired
translate SiwsErrors.Sentinel.not_yet_valid = Sentinel.not_yet_valid
translate SiwsErrors.Sentinel.domain_mismatch = Sentinel.domain_mismatch
translate SiwsErrors.Sentinel.nonce_mismatch = Sentinel.nonce_mismatch

abbrev at_address : ℕ → SiwsErrors.Sentinel
at_address n =
    if n == 0
    then SiwsErrors.Sentinel.malformed
    else if n == 1
    then SiwsErrors.Sentinel.bad_signature
    else if n == 2
    then SiwsErrors.Sentinel.expired
    else if n == 3
    then SiwsErrors.Sentinel.not_yet_valid
    else if n == 4
    then SiwsErrors.Sentinel.domain_mismatch
    else SiwsErrors.Sentinel.nonce_mismatch

at_address_of : (s : SiwsErrors.Sentinel) → at_address (address_of s) ≡ s
at_address_of SiwsErrors.Sentinel.malformed = refl
at_address_of SiwsErrors.Sentinel.bad_signature = refl
at_address_of SiwsErrors.Sentinel.expired = refl
at_address_of SiwsErrors.Sentinel.not_yet_valid = refl
at_address_of SiwsErrors.Sentinel.domain_mismatch = refl
at_address_of SiwsErrors.Sentinel.nonce_mismatch = refl

same_sentinel : (s t : SiwsErrors.Sentinel) → (address_of s == address_of t) ≡ true → s ≡ t
same_sentinel s t h =
    sym (at_address_of s)
    ∙ ap at_address ((==_iff (address_of s) (address_of t)).0 h)
    ∙ at_address_of t

abbrev IsFaithful : Entry → Type 0
IsFaithful p = translate p.0 ≡ p.1

abbrev covers : SiwsErrors.Sentinel → List Entry → Bool
covers s [] = false
covers s (p ∷ ps) = address_of s == address_of p.0 || covers s ps

perm-IsFaithful : {xs ys : List Entry} → Permᴰ xs ys → All IsFaithful xs → All IsFaithful ys
perm-IsFaithful Permᴰ.nil h = h
perm-IsFaithful (Permᴰ.cons e p) (h, hs) = (rw e at h, perm-IsFaithful p hs)
perm-IsFaithful (Permᴰ.swap e f) (h, (h', hs)) = (rw f at h', (rw e at h, hs))
perm-IsFaithful (Permᴰ.trans p q) h = perm-IsFaithful q (perm-IsFaithful p h)

or_swap : (a b c : Bool) → (a || (b || c)) ≡ (b || (a || c))
or_swap a b c = ground arith

perm-covers :
    (s : SiwsErrors.Sentinel) {xs ys : List Entry} → Permᴰ xs ys → covers s xs ≡ covers s ys
perm-covers s Permᴰ.nil = refl
perm-covers s (Permᴰ.cons e p) = λ i. (address_of s == address_of (e i).0) || perm-covers s p i
perm-covers s {ys = _ ∷ _ ∷ l} (Permᴰ.swap {a = a} {b = b} e f) =
    or_swap (address_of s == address_of a.0) (address_of s == address_of b.0) (covers s l) ∙ (λ i.
      (address_of s == address_of (f i).0) || ((address_of s == address_of (e i).0) || covers s l))
perm-covers s (Permᴰ.trans p q) = perm-covers s p ∙ perm-covers s q

map_err_covered :
    (order : List Entry) (r : Reason)
    → All IsFaithful order
    → covers (sentinel r) order ≡ true
    → map_err order r ≡ translate (sentinel r) ∷ []
unfolding map_err
map_err_covered [] r h c = absurd (ground arith)
map_err_covered ((from, to) ∷ order) r (h, hs) c =
    elim (Bool-cases (address_of (sentinel r) == address_of from)) [
      | inl e ↦ rw (e, same_sentinel (sentinel r) from e, h)
      | inr e ↦ rw e (map_err_covered order r hs (ground arith))
    ]

covers-entries : (s : SiwsErrors.Sentinel) → covers s entries ≡ true
covers-entries SiwsErrors.Sentinel.malformed = refl
covers-entries SiwsErrors.Sentinel.bad_signature = refl
covers-entries SiwsErrors.Sentinel.expired = refl
covers-entries SiwsErrors.Sentinel.not_yet_valid = refl
covers-entries SiwsErrors.Sentinel.domain_mismatch = refl
covers-entries SiwsErrors.Sentinel.nonce_mismatch = refl

-- In whatever order the map is ranged over, `mapErr` gives every error of siws the one sentinel of
-- siwx that has the same name.
pub map_err_any_order :
    (order : List Entry) (r : Reason)
    → Permᴰ entries order
    → map_err order r ≡ translate (sentinel r) ∷ []
map_err_any_order order r p =
    map_err_covered order r (perm-IsFaithful p (refl, (refl, (refl, (refl, (refl, (refl, tt)))))))
      (sym (perm-covers (sentinel r) p) ∙ covers-entries (sentinel r))
