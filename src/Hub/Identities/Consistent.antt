-- ===== src/Hub/Identities/Consistent.antt =====
-- examples/hub/stores.go: the two maps of `memIdentityStore` against each other.
use siwx_go.Base.{
  List, [], ◌∷◌, ◌++◌, Bytes, codes, true, Option, none, some, equal, equal_iff, ◌≡◌, sym, ap, ◌∙◌,
  arith, inl, inr, Bool-cases, Option-cases,
}
use siwx_go.Go.Hex.{hex_encode}
use siwx_go.Go.Maps.{lookup, insert, lookup-insert, lookup-insert_other}
use siwx_go.Hub.Identities.{IdentityStore, upsert_by_wallet, linked, link_wallet}
use siwx_go.Siwx.Caip.{Caip10, string10}

-- The identity of a wallet lists this wallet.
pub record IsListed (s : IdentityStore) (w id : Bytes) : Type 0 where
  pub listing : List Bytes
  pub is_there : lookup s.id_to_wallets id ≡ some listing
  pub lists : linked listing w ≡ true

abbrev pub IsConsistent : IdentityStore → Type 0
IsConsistent s = (w id : Bytes) → lookup s.wallet_to_id w ≡ some id → IsListed s w id

some_inj : {A : Type 0} {a b : A} → some a ≡ some b → a ≡ b
some_inj h = cc

linked_behind :
    (ws : List Bytes) (k w : Bytes) → linked ws w ≡ true → linked (ws ++ k ∷ []) w ≡ true
unfolding linked
linked_behind [] k w h = ground arith
linked_behind (x ∷ ws) k w h = ground (arith, linked_behind ws k w)

linked_last : (ws : List Bytes) (k w : Bytes) → equal k w ≡ true → linked (ws ++ k ∷ []) w ≡ true
unfolding linked
linked_last [] k w h = ground arith
linked_last (x ∷ ws) k w h = ground (arith, linked_last ws k w)

module _ (s : IdentityStore) (key id : Bytes) (ws : List Bytes) where
  -- The store with `key` under `id`, and `ws` as the list of `id`.
  abbrev with_wallet : IdentityStore
  with_wallet = record {
    wallet_to_id = insert s.wallet_to_id key id;
    id_to_wallets = insert s.id_to_wallets id ws;
  }

  -- Such a store is consistent where the new list has the key and whatever the old one had.
  with_wallet-IsConsistent :
      IsConsistent s
      → ((w : Bytes) → equal key w ≡ true → linked ws w ≡ true)
      → ((w : Bytes) (old : List Bytes)
          → lookup s.id_to_wallets id ≡ some old
          → linked old w ≡ true
          → linked ws w ≡ true)
      → IsConsistent with_wallet
  with_wallet-IsConsistent c new kept w id' h = elim (Bool-cases (equal key w)) [
    | inl e ↦
        let same_key : key ≡ w = (equal_iff key w).0 e in
        let found : lookup (insert s.wallet_to_id key id) w ≡ some id =
          ap (lookup (insert s.wallet_to_id key id)) (sym same_key)
          ∙ lookup-insert s.wallet_to_id key id in
        let same : id ≡ id' = some_inj (sym found ∙ h) in
        record {
          listing = ws;
          is_there =
              ap (lookup (insert s.id_to_wallets id ws)) (sym same)
              ∙ lookup-insert s.id_to_wallets id ws;
          lists = new w e;
        }
    | inr e ↦
        let old = c w id' (sym (lookup-insert_other s.wallet_to_id key w id e) ∙ h) in
        elim (Bool-cases (equal id id')) [
          | inl f ↦
              let same : id ≡ id' = (equal_iff id id').0 f in
              record {
                listing = ws;
                is_there =
                    ap (lookup (insert s.id_to_wallets id ws)) (sym same)
                    ∙ lookup-insert s.id_to_wallets id ws;
                lists =
                    kept w old.listing (ap (lookup s.id_to_wallets) same ∙ old.is_there) old.lists;
              }
          | inr f ↦ record {
            listing = old.listing;
            is_there = lookup-insert_other s.id_to_wallets id id' ws f ∙ old.is_there;
            lists = old.lists;
          }
        ]
  ]

-- The identifier that `UpsertByWallet` would make is not taken.
abbrev pub IsFresh : IdentityStore → Option Bytes → Type 0
IsFresh s none = Unit
IsFresh s (some b) = lookup s.id_to_wallets (codes "id_" ++ hex_encode b) ≡ none

upsert-IsConsistent :
    (random : Option Bytes) (w : Caip10) (s : IdentityStore)
    → IsFresh s random
    → IsConsistent s
    → IsConsistent (upsert_by_wallet random w s).1
unfolding upsert_by_wallet linked
upsert-IsConsistent none w s fresh c = elim (Option-cases (lookup s.wallet_to_id (string10 w))) [
  | inl e ↦ rw (upsert_by_wallet, e) c
  | inr (id, e) ↦ rw (upsert_by_wallet, e) c
]
upsert-IsConsistent (some b) w s fresh c =
    elim (Option-cases (lookup s.wallet_to_id (string10 w))) [
      | inr (id, e) ↦ rw (upsert_by_wallet, e) c
      | inl e ↦
          rw (upsert_by_wallet, e)
            (with_wallet-IsConsistent s (string10 w) (codes "id_" ++ hex_encode b) (string10 w ∷ [])
              c (λ w' h. ground arith) (λ w' old h l. absurd cc))
    ]

link-IsConsistent :
    (id : Bytes) (w : Caip10) (s : IdentityStore)
    → IsConsistent s
    → IsConsistent (link_wallet id w s).1
unfolding link_wallet
link-IsConsistent id w s c = elim (Option-cases (lookup s.id_to_wallets id)) [
  | inl e ↦ rw (link_wallet, e) c
  | inr (ws, e) ↦ elim (Bool-cases (linked ws (string10 w))) [
    | inl f ↦ rw (link_wallet, e, f) c
    | inr f ↦
        rw (link_wallet, e, f)
          (with_wallet-IsConsistent s (string10 w) id (ws ++ string10 w ∷ []) c
            (λ w' h. linked_last ws (string10 w) w' h)
            (λ w' old h l.
              let same : old ≡ ws = some_inj (sym h ∙ e) in
              linked_behind ws (string10 w) w' (rw same at l)))
  ]
]

-- A call of either method that writes.
pub data Call (s s' : IdentityStore) : Type 0 where
  upserting :
      (random : Option Bytes) (w : Caip10)
      → IsFresh s random
      → s' ≡ (upsert_by_wallet random w s).1
      → Call s s'
  linking : (id : Bytes) (w : Caip10) → s' ≡ (link_wallet id w s).1 → Call s s'

pub data Calls : IdentityStore → IdentityStore → Type 0 where
  stop : (s : IdentityStore) → Calls s s
  next : (s mid s' : IdentityStore) → Call s mid → Calls mid s' → Calls s s'

Call-IsConsistent : (s s' : IdentityStore) → Call s s' → IsConsistent s → IsConsistent s'
Call-IsConsistent s s' (upserting random w fresh e) c =
    rw e (upsert-IsConsistent random w s fresh c)
Call-IsConsistent s s' (linking id w e) c = rw e (link-IsConsistent id w s c)

-- Through any calls of `UpsertByWallet` and `LinkWallet`, each new identifier not yet taken, every
-- wallet stays listed under the identity that it belongs to.
pub Calls-IsConsistent : (s s' : IdentityStore) → Calls s s' → IsConsistent s → IsConsistent s'
Calls-IsConsistent s s' (stop _) c = c
Calls-IsConsistent s s' (next _ mid _ call rest) c =
    Calls-IsConsistent mid s' rest (Call-IsConsistent s mid call c)
