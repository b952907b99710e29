-- ===== src/Hub/Identities.antt =====
-- examples/hub/stores.go: `memIdentityStore`. A method holds the lock, so it is one step.
pub mod Linked
pub mod Consistent
pub mod Relink
use siwx_go.Base.{
  List, [], ◌∷◌, ◌++◌, Bytes, codes, Bool, true, false, ◌||◌, Option, none, some, if◌then◌else◌,
  equal,
}
use siwx_go.Go.Maps.{lookup, insert}
use siwx_go.Siwx.Caip.{Caip10, CaipError, Parsed, parsed, refused, string10, parse_caip10}
use siwx_go.Go.Hex.{hex_encode}

pub record IdentityStore : Type 0 where
  pub wallet_to_id : List (Bytes × Bytes)
  pub id_to_wallets : List (Bytes × List Bytes)

-- What `UpsertByWallet` returns: the identity and whether it is new, or the error of `rand.Read`.
pub data Upserted : Type 0 where
  upserted : (identity_id : Bytes) (created : Bool) → Upserted
  no_random : Upserted

unfoldable pub upsert_by_wallet : Option Bytes → Caip10 → IdentityStore → Upserted × IdentityStore
upsert_by_wallet random w s = elim (lookup s.wallet_to_id (string10 w)) [
  | some id ↦ (upserted id false, s)
  | none ↦ elim random [
    | none ↦ (no_random, s)
    | some b ↦
        let id = codes "id_" ++ hex_encode b in
        (
          upserted id true,
          record {
            wallet_to_id = insert s.wallet_to_id (string10 w) id;
            id_to_wallets = insert s.id_to_wallets id (string10 w ∷ []);
          },
        )
  ]
]

-- The loop that looks for a key.
unfoldable pub linked : List Bytes → Bytes → Bool
linked [] key = false
linked (existing ∷ ws) key = equal existing key || linked ws key

pub data Linking : Type 0 where
  done identity_not_found : Linking

unfoldable pub link_wallet : Bytes → Caip10 → IdentityStore → Linking × IdentityStore
unfolding linked
link_wallet id w s = elim (lookup s.id_to_wallets id) [
  | none ↦ (identity_not_found, s)
  | some ws ↦ if linked ws (string10 w) then (done, s) else (
    done,
    record {
      wallet_to_id = insert s.wallet_to_id (string10 w) id;
      id_to_wallets = insert s.id_to_wallets id (ws ++ string10 w ∷ []);
    },
  )
]

-- The loop of `Wallets`.
unfoldable pub parse_all : List Bytes → Parsed (List Caip10)
parse_all [] = parsed []
parse_all (t ∷ ts) =
    let rest = parse_all ts in
    elim (parse_caip10 t) [
      | refused e ↦ refused e
      | parsed c ↦ elim rest [ refused e ↦ refused e | parsed cs ↦ parsed (c ∷ cs) ]
    ]

unfoldable pub wallets : Bytes → IdentityStore → Parsed (List Caip10)
unfolding parse_all
wallets id s = elim (lookup s.id_to_wallets id) [ none ↦ parsed [] | some ws ↦ parse_all ws ]
