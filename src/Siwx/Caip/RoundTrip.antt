-- ===== src/Siwx/Caip/RoundTrip.antt =====
-- siwx/caip.go: parsing against printing.
use siwx_go.Base.{
  ◌∷◌, ◌++◌, true, not, Bytes, some, if◌then◌else◌, ◌≡◌, ◌↔◌, refl, sym, ◌∙◌, ap, arith,
  append_assoc, Option-cases, inl, inr, &&-split,
}
use siwx_go.Go.Strings.{cut}
use siwx_go.Go.Strings.Laws.{Lacks, cut_append, append_of_cut, all_bytes-Lacks}
use siwx_go.Siwx.Caip.{
  Caip2, Caip10, parsed, refused, re_namespace, re_reference, re_address, string2, string10,
  bad_namespace, bad_reference, parse_caip2, parse_caip10, checked_account,
}

pub record IsChain (c : Caip2) : Type 0 where
  pub namespace_matches : re_namespace c.namespace ≡ true
  pub reference_matches : re_reference c.reference ≡ true

pub record IsAccount (a : Caip10) : Type 0 where
  pub chain : IsChain a.chain_id
  pub address_matches : re_address a.address ≡ true

-- A name that matches holds no colon.
namespace_Lacks : (s : Bytes) → re_namespace s ≡ true → Lacks b':' s
unfolding re_namespace
namespace_Lacks s h = all_bytes-Lacks _ s b':' refl (&&-split _ _ (&&-split _ _ h).1).1

reference_Lacks : (s : Bytes) → re_reference s ≡ true → Lacks b':' s
unfolding re_reference
reference_Lacks s h = all_bytes-Lacks _ s b':' refl (&&-split _ _ (&&-split _ _ h).1).1

parse-string2 : (c : Caip2) → IsChain c → parse_caip2 (string2 c) ≡ parsed c
unfolding parse_caip2
parse-string2 c h =
    let e : cut (string2 c) b':' ≡ some (c.namespace, c.reference) =
      cut_append c.namespace c.reference b':' (namespace_Lacks c.namespace h.namespace_matches) in
    rw (parse_caip2, e, h.namespace_matches, h.reference_matches)

is_chain :
    (ns ref : Bytes) (c : Caip2)
    → (if not (re_namespace ns)
        then refused bad_namespace
        else if not (re_reference ref)
        then refused bad_reference
        else parsed (record { namespace = ns; reference = ref }))
      ≡ parsed c
    → (record { namespace = ns; reference = ref } ≡ c)
      × (re_namespace ns ≡ true)
      × (re_reference ref ≡ true)
is_chain ns ref c h = ground arith

is_account :
    (ns ref addr : Bytes) (a : Caip10)
    → checked_account ns ref addr ≡ parsed a
    → (record { chain_id = record { namespace = ns; reference = ref }; address = addr } ≡ a)
      × (re_namespace ns ≡ true)
      × (re_reference ref ≡ true)
      × (re_address addr ≡ true)
unfolding checked_account
is_account ns ref addr a h = ground arith

string2-parse : (s : Bytes) (c : Caip2) → parse_caip2 s ≡ parsed c → (s ≡ string2 c) × IsChain c
unfolding parse_caip2
string2-parse s c h = elim (Option-cases (cut s b':')) [
  | inl e ↦ absurd (ground arith)
  | inr ((ns, ref), e) ↦
      let (same, n, r) = is_chain ns ref c (rw (parse_caip2, e) at h) in
      rw (sym same)
        ((append_of_cut s b':' ns ref e).0, record { namespace_matches = n; reference_matches = r })
]

-- `ParseCAIP2` accepts exactly the texts that `String` writes for a chain whose parts match, and
-- returns that chain.
pub parse_caip2_iff :
    (s : Bytes) (c : Caip2) → (parse_caip2 s ≡ parsed c) ↔ ((s ≡ string2 c) × IsChain c)
parse_caip2_iff s c = (string2-parse s c, λ (e, h). rw e (parse-string2 c h))

parse-string10 : (a : Caip10) → IsAccount a → parse_caip10 (string10 a) ≡ parsed a
unfolding parse_caip10 checked_account
parse-string10 a h =
    let c = a.chain_id in
    let e : cut (string10 a) b':' ≡ some (c.namespace, c.reference ++ b':' ∷ a.address) =
      rw (append_assoc c.namespace (b':' ∷ c.reference) (b':' ∷ a.address)) (
        cut_append c.namespace (c.reference ++ b':' ∷ a.address) b':'
          (namespace_Lacks c.namespace h.chain.namespace_matches)) in
    let e' =
      cut_append c.reference a.address b':'
        (reference_Lacks c.reference h.chain.reference_matches) in
    rw (
      parse_caip10, e, e', checked_account, h.chain.namespace_matches, h.chain.reference_matches,
      h.address_matches,
    )

string10-parse :
    (s : Bytes) (a : Caip10) → parse_caip10 s ≡ parsed a → (s ≡ string10 a) × IsAccount a
unfolding parse_caip10
string10-parse s a h = elim (Option-cases (cut s b':')) [
  | inl e ↦ absurd (ground arith)
  | inr ((ns, rest), e) ↦ elim (Option-cases (cut rest b':')) [
    | inl e' ↦ absurd (ground arith)
    | inr ((ref, addr), e') ↦
        let (same, n, r, d) = is_account ns ref addr a (rw (parse_caip10, e, e') at h) in
        let (s_is, _) = append_of_cut s b':' ns rest e in
        let (rest_is, _) = append_of_cut rest b':' ref addr e' in
        rw (sym same) (
          s_is
              ∙ ap (λ t. ns ++ b':' ∷ t) rest_is
              ∙ sym (append_assoc ns (b':' ∷ ref) (b':' ∷ addr)),
          record {
            chain = record { namespace_matches = n; reference_matches = r };
            address_matches = d;
          },
        )
  ]
]

-- `ParseCAIP10` accepts exactly the texts that `String` writes for an account whose parts match,
-- and returns that account.
pub parse_caip10_iff :
    (s : Bytes) (a : Caip10) → (parse_caip10 s ≡ parsed a) ↔ ((s ≡ string10 a) × IsAccount a)
parse_caip10_iff s a = (string10-parse s a, λ (e, h). rw e (parse-string10 a h))
