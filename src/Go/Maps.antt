-- ===== src/Go/Maps.antt =====
-- A Go map with string keys, as a list of its entries.
use siwx_go.Base.{
  List, [], ◌∷◌, Bytes, false, Option, none, some, if◌then◌else◌, equal, equal_iff, equal_refl, ◌≡◌,
  refl, arith, Bool-cases, inl, inr,
}

module _ {ℓ} {V : Type ℓ} where
  -- `m[k]`
  unfoldable pub lookup : List (Bytes × V) → Bytes → Option V
  lookup [] k = none
  lookup ((h, v) ∷ m) k = if equal h k then some v else lookup m k

  -- `delete(m, k)`
  unfoldable pub delete : List (Bytes × V) → Bytes → List (Bytes × V)
  delete [] k = []
  delete ((h, v) ∷ m) k = let rest = delete m k in if equal h k then rest else (h, v) ∷ rest

  -- `m[k] = v`
  abbrev pub insert : List (Bytes × V) → Bytes → V → List (Bytes × V)
  insert m k v = (k, v) ∷ delete m k

  pub lookup-delete : (m : List (Bytes × V)) (k : Bytes) → lookup (delete m k) k ≡ none
  unfolding lookup delete
  lookup-delete [] k = refl
  lookup-delete ((h, v) ∷ m) k = ground (arith, lookup-delete m k)

  pub lookup-insert : (m : List (Bytes × V)) (k : Bytes) (v : V) → lookup (insert m k v) k ≡ some v
  unfolding lookup
  lookup-insert m k v = rw (equal_refl k)

  pub lookup-delete_other :
      (m : List (Bytes × V)) (k n : Bytes) → equal k n ≡ false → lookup (delete m k) n ≡ lookup m n
  unfolding lookup delete
  lookup-delete_other [] k n ne = refl
  lookup-delete_other ((h, v) ∷ m) k n ne = elim (Bool-cases (equal h k)) [
    | inl e ↦
        let same : h ≡ k = (equal_iff h k).0 e in
        let skipped : equal h n ≡ false = rw (same, ne) in
        rw (e, skipped) (lookup-delete_other m k n ne)
    | inr e ↦ ground (arith, lookup-delete_other m k n ne)
  ]

  pub lookup-insert_other :
      (m : List (Bytes × V)) (k n : Bytes) (v : V)
      → equal k n ≡ false
      → lookup (insert m k v) n ≡ lookup m n
  unfolding lookup
  lookup-insert_other m k n v ne = rw ne (lookup-delete_other m k n ne)
