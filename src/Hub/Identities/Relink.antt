-- ===== src/Hub/Identities/Relink.antt =====
-- examples/hub/stores.go: a wallet that is linked to another identity and back.
use siwx_go.Base.{List, [], ◌∷◌, ◌++◌, Bytes, true, false, Option, some, equal, ◌≡◌, refl, ◌∙◌}
use siwx_go.Go.Maps.{lookup, insert, lookup-insert, lookup-insert_other}
use siwx_go.Hub.Identities.{IdentityStore, upserted, upsert_by_wallet, linked, done, link_wallet}
use siwx_go.Siwx.Caip.{Caip10, string10}

module _ (w : Caip10) (s : IdentityStore) where
  -- `LinkWallet` on an identity that does not list the wallet.
  link-new :
      (id : Bytes) (ws : List Bytes)
      → lookup s.id_to_wallets id ≡ some ws
      → linked ws (string10 w) ≡ false
      → link_wallet id w s ≡ (
        done,
        record {
          wallet_to_id = insert s.wallet_to_id (string10 w) id;
          id_to_wallets = insert s.id_to_wallets id (ws ++ string10 w ∷ []);
        },
      )
  unfolding link_wallet
  link-new id ws e n = rw (link_wallet, e, n) refl

  -- On one that lists it already.
  link-listed :
      (id : Bytes) (ws : List Bytes)
      → lookup s.id_to_wallets id ≡ some ws
      → linked ws (string10 w) ≡ true
      → link_wallet id w s ≡ (done, s)
  unfolding link_wallet
  link-listed id ws e y = rw (link_wallet, e, y) refl

upsert-known :
    (random : Option Bytes) (w : Caip10) (s : IdentityStore) (id : Bytes)
    → lookup s.wallet_to_id (string10 w) ≡ some id
    → (upsert_by_wallet random w s).0 ≡ upserted id false
unfolding upsert_by_wallet
upsert-known random w s id e = rw (upsert_by_wallet, e) refl

-- A wallet that one identity lists is linked to another, which does not list it yet: it then signs in
-- as the other. `LinkWallet` back to the first reports success and changes nothing, so the wallet
-- still signs in as the other.
pub relink_back :
    (random : Option Bytes) (w : Caip10) (s : IdentityStore) (a b : Bytes)
    (mine theirs : List Bytes)
    → lookup s.id_to_wallets a ≡ some mine
    → linked mine (string10 w) ≡ true
    → lookup s.id_to_wallets b ≡ some theirs
    → linked theirs (string10 w) ≡ false
    → equal b a ≡ false
    → ((link_wallet b w s).0 ≡ done)
      × (link_wallet a w (link_wallet b w s).1 ≡ (done, (link_wallet b w s).1))
      × ((upsert_by_wallet random w (link_wallet b w s).1).0 ≡ upserted b false)
relink_back random w s a b mine theirs ea ya eb nb apart =
    let e = link-new w s b theirs eb nb in
    let kept = lookup-insert_other s.id_to_wallets b a (theirs ++ string10 w ∷ []) apart ∙ ea in
    rw e (
      refl,
      link-listed w _ a mine kept ya,
      upsert-known random w _ b (lookup-insert s.wallet_to_id (string10 w) b),
    )
