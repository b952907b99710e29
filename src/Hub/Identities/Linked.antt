-- ===== src/Hub/Identities/Linked.antt =====
-- examples/hub/stores.go: calls on the identity store in sequence.
use siwx_go.Base.{
  List, [], ◌∷◌, ◌++◌, map, All, Bytes, codes, Bool, true, false, Option, none, some, equal,
  equal_refl, ◌≡◌, refl, arith, Option-cases, Bool-cases, inl, inr,
}
use siwx_go.Go.Maps.{lookup, insert, lookup-insert, lookup-insert_other}
use siwx_go.Siwx.Caip.RoundTrip.{IsAccount, parse_caip10_iff}
use siwx_go.Siwx.Caip.{Caip10, parsed, string10}
use siwx_go.Go.Hex.{hex_encode}
use siwx_go.Hub.Identities.{
  IdentityStore, upserted, no_random, upsert_by_wallet, linked, done, identity_not_found,
  link_wallet, parse_all, wallets,
}

no_random_not : {id : Bytes} {c : Bool} → ¬ (no_random ≡ upserted id c)
no_random_not h = cc

upserted_inj : {id id' : Bytes} {c c' : Bool} → upserted id c ≡ upserted id' c' → id ≡ id'
upserted_inj h = cc

-- A wallet that has been added keeps its identity: the next `UpsertByWallet` of this wallet returns
-- the same identity as not new and leaves the store as it is.
pub upsert_again :
    (random random' : Option Bytes) (w : Caip10) (s : IdentityStore) (id : Bytes) (created : Bool)
    → (upsert_by_wallet random w s).0 ≡ upserted id created
    → upsert_by_wallet random' w (upsert_by_wallet random w s).1
      ≡ (upserted id false, (upsert_by_wallet random w s).1)
unfolding upsert_by_wallet
upsert_again none random' w s id created h =
    elim (Option-cases (lookup s.wallet_to_id (string10 w))) [
      | inl e ↦ absurd (no_random_not (rw (upsert_by_wallet, e) at h))
      | inr (i, e) ↦
          let same = upserted_inj (rw (upsert_by_wallet, e) at h) in
          let first : upsert_by_wallet none w s ≡ (upserted i false, s) =
            rw (upsert_by_wallet, e) in
          let second : upsert_by_wallet random' w s ≡ (upserted i false, s) =
            rw (upsert_by_wallet, e) in
          rw (first, second, same)
    ]
upsert_again (some b) random' w s id created h =
    elim (Option-cases (lookup s.wallet_to_id (string10 w))) [
      | inl e ↦
          let same = upserted_inj (rw (upsert_by_wallet, e) at h) in
          let i = codes "id_" ++ hex_encode b in
          let new : IdentityStore = record {
            wallet_to_id = insert s.wallet_to_id (string10 w) i;
            id_to_wallets = insert s.id_to_wallets i (string10 w ∷ []);
          } in
          let first : upsert_by_wallet (some b) w s ≡ (upserted i true, new) =
            rw (upsert_by_wallet, e) in
          let second : upsert_by_wallet random' w new ≡ (upserted i false, new) =
            rw (upsert_by_wallet, lookup-insert s.wallet_to_id (string10 w) i) in
          rw (first, second, same)
      | inr (i, e) ↦
          let same = upserted_inj (rw (upsert_by_wallet, e) at h) in
          let first : upsert_by_wallet (some b) w s ≡ (upserted i false, s) =
            rw (upsert_by_wallet, e) in
          let second : upsert_by_wallet random' w s ≡ (upserted i false, s) =
            rw (upsert_by_wallet, e) in
          rw (first, second, same)
    ]

linked-append : (ws : List Bytes) (k : Bytes) → linked (ws ++ k ∷ []) k ≡ true
unfolding linked
linked-append [] k = rw (equal_refl k)
linked-append (x ∷ ws) k = ground (arith, linked-append ws k)

-- Linking a wallet twice is linking it once.
pub link_again :
    (id : Bytes) (w : Caip10) (s : IdentityStore)
    → link_wallet id w (link_wallet id w s).1 ≡ ((link_wallet id w s).0, (link_wallet id w s).1)
unfolding link_wallet
link_again id w s = elim (Option-cases (lookup s.id_to_wallets id)) [
  | inl e ↦
      let first : link_wallet id w s ≡ (identity_not_found, s) = rw (link_wallet, e) in
      rw (first, first)
  | inr (ws, e) ↦ elim (Bool-cases (linked ws (string10 w))) [
    | inl f ↦
        let first : link_wallet id w s ≡ (done, s) = rw (link_wallet, e, f) in rw (first, first)
    | inr f ↦
        let more = ws ++ string10 w ∷ [] in
        let new : IdentityStore = record {
          wallet_to_id = insert s.wallet_to_id (string10 w) id;
          id_to_wallets = insert s.id_to_wallets id more;
        } in
        let first : link_wallet id w s ≡ (done, new) = rw (link_wallet, e, f) in
        let second : link_wallet id w new ≡ (done, new) =
          rw (link_wallet, lookup-insert s.id_to_wallets id more, linked-append ws (string10 w)) in
        rw (first, second)
  ]
]

-- `Wallets` reads back accounts that were stored as their texts.
pub parse_all-string10 :
    (ws : List Caip10) → All IsAccount ws → parse_all (map string10 ws) ≡ parsed ws
unfolding parse_all
parse_all-string10 [] h = refl
parse_all-string10 (w ∷ ws) (a, h) =
    rw (parse_all, (parse_caip10_iff (string10 w) w).1 (refl, a), parse_all-string10 ws h)

-- Linking a wallet to one identity leaves what every other identity lists as it is, also where the
-- wallet stood in such a list.
pub link_keeps_others :
    (id other : Bytes) (w : Caip10) (s : IdentityStore)
    → equal id other ≡ false
    → wallets other (link_wallet id w s).1 ≡ wallets other s
unfolding wallets link_wallet
link_keeps_others id other w s ne = elim (Option-cases (lookup s.id_to_wallets id)) [
  | inl e ↦
      let first : link_wallet id w s ≡ (identity_not_found, s) = rw (link_wallet, e) in rw first
  | inr (ws, e) ↦ elim (Bool-cases (linked ws (string10 w))) [
    | inl f ↦ let first : link_wallet id w s ≡ (done, s) = rw (link_wallet, e, f) in rw first
    | inr f ↦
        let more = ws ++ string10 w ∷ [] in
        let new : IdentityStore = record {
          wallet_to_id = insert s.wallet_to_id (string10 w) id;
          id_to_wallets = insert s.id_to_wallets id more;
        } in
        let first : link_wallet id w s ≡ (done, new) = rw (link_wallet, e, f) in
        rw (first, wallets, lookup-insert_other s.id_to_wallets id other more ne)
  ]
]
