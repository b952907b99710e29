-- ===== src/Contracts/Identities.antt =====
-- contracts/contracts.go: the interface `IdentityStore`.
use siwx_go.Base.{List, Bytes, Bool, true, false, Option, some, ◌≡◌}
use siwx_go.Hub.Identities.{Upserted, upserted, Linking}
use siwx_go.Siwx.Caip.{Caip10, Parsed}

-- An implementation with the state `S`. `UpsertByWallet` takes what it reads of `rand.Read`.
pub record IdentityStore (S : Type 0) : Type 0 where
  pub start : S
  pub upsert_by_wallet : Option Bytes → Caip10 → S → Upserted × S
  pub link_wallet : Bytes → Caip10 → S → Linking × S
  pub wallets : Bytes → S → Parsed (List Caip10)

-- "First wallet creates", and a wallet that has an identity keeps it.
pub record IdentityStoreLaws {S : Type 0} (store : IdentityStore S) : Type 0 where
  pub creates :
      (b : Bytes) (w : Caip10)
      → (id : Bytes) × ((store.upsert_by_wallet (some b) w store.start).0 ≡ upserted id true)
  pub keeps :
      (random random' : Option Bytes) (w : Caip10) (s : S) (id : Bytes) (created : Bool)
      → (store.upsert_by_wallet random w s).0 ≡ upserted id created
      → store.upsert_by_wallet random' w (store.upsert_by_wallet random w s).1
        ≡ (upserted id false, (store.upsert_by_wallet random w s).1)
