-- ===== src/Siwx/Registry/Lookup.antt =====
-- siwx/registry.go: `Register`, and the look-up in `Verify`.
use mathlib.Core.Path.{subst}
use siwx_go.Base.{
  All, ◌≢◌, none, [], ◌∷◌, Bytes, true, false, some, if◌then◌else◌, equal, equal_iff, ◌≡◌, refl,
  arith, Bool-cases, inl, inr, sym, ◌∙◌,
}
use siwx_go.Siwx.Registry.{Registry, find, register}
use siwx_go.Siwx.Verifier.{Verifier}

apart : (a b c : Bytes) → equal a b ≡ false → equal a c ≡ true → ¬ (equal b c ≡ true)
apart a b c h ac bc =
    let same : a ≡ b = (equal_iff a c).0 ac ∙ sym ((equal_iff b c).0 bc) in
    cc (h, (equal_iff a b).1 same)

-- After `Register`, the verifier's own namespace finds this verifier, whatever stood there before,
-- and every other namespace finds what it found before.
pub find-register :
    (r : Registry) (v : Verifier) (ns : Bytes)
    → find (register r v) ns ≡ (if equal v.namespace ns then some v else find r ns)
unfolding find register
find-register [] v ns = refl
find-register (w ∷ r) v ns = elim (Bool-cases (equal w.namespace v.namespace)) [
  | inl e ↦
      let same : w.namespace ≡ v.namespace = (equal_iff w.namespace v.namespace).0 e in
      ground (arith, same, e)
  | inr e ↦ elim (Bool-cases (equal w.namespace ns)) [
    | inl f ↦
        let other : equal v.namespace ns ≡ false = elim (Bool-cases (equal v.namespace ns)) [
          | inl g ↦ absurd (apart w.namespace v.namespace ns e f g)
          | inr g ↦ g
        ] in
        ground (arith, other)
    | inr f ↦ ground (arith, find-register r v ns)
  ]
]

-- The verifier that a registry holds for a namespace.
pub data FoundIn (ns : Bytes) : Registry → Verifier → Type 0 where
  here : (v : Verifier) (reg : Registry) → v.namespace ≡ ns → FoundIn ns (v ∷ reg) v
  there :
      (w v : Verifier) (reg : Registry)
      → w.namespace ≢ ns
      → FoundIn ns reg v
      → FoundIn ns (w ∷ reg) v

equal-ne : (a b : Bytes) → equal a b ≡ false → a ≢ b
equal-ne a b h e = cc (h, (equal_iff a b).1 e)

some_inj : (w v : Verifier) → some w ≡ some v → w ≡ v
some_inj w v h = cc

pub find-FoundIn :
    (reg : Registry) (ns : Bytes) (v : Verifier) → find reg ns ≡ some v → FoundIn ns reg v
unfolding find
find-FoundIn [] ns v h = absurd (cc h)
find-FoundIn (w ∷ reg) ns v h = elim (Bool-cases (equal w.namespace ns)) [
  | inl e ↦
      let same : w ≡ v = some_inj w v (rw (find, e) at h) in
      subst (FoundIn ns (w ∷ reg)) same (FoundIn.here w reg ((equal_iff w.namespace ns).0 e))
  | inr e ↦
      FoundIn.there w v reg (equal-ne w.namespace ns e) (find-FoundIn reg ns v (rw (find, e) at h))
]

pub find-Lacks :
    (reg : Registry) (ns : Bytes) → find reg ns ≡ none → All (λ v. v.namespace ≢ ns) reg
unfolding find
find-Lacks [] ns h = tt
find-Lacks (w ∷ reg) ns h = elim (Bool-cases (equal w.namespace ns)) [
  | inl e ↦ absurd (cc (rw (find, e) at h))
  | inr e ↦ (equal-ne w.namespace ns e, find-Lacks reg ns (rw (find, e) at h))
]
