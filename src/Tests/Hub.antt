-- ===== src/Tests/Hub.antt =====
-- The stores of the example server on small inputs.
use siwx_go.Base.{
  ℕ, ◌≤◌, ◌↔◌, List, arith, [], ◌∷◌, Bytes, codes, true, false, some, equal, replicate, ◌++◌, ◌≡◌,
  refl,
}
use siwx_go.Go.Maps.{lookup}
use siwx_go.Go.Strings.{all_bytes}
use siwx_go.Hub.Identities.Relink.{relink_back}
use siwx_go.Hub.Identities.{IdentityStore, upserted, upsert_by_wallet, linked, done, link_wallet}
use siwx_go.Hub.Config.{Environment, env, load_dot_env, env_int, binding}
use siwx_go.Hub.Config.Precedence.{
  or_else, file_value, non_empty, env-load_dot_env, env_int-int_text,
}
use siwx_go.Go.Strconv.{pos, negsuc, decimal}
use siwx_go.Go.Strings.{contains_byte}
use siwx_go.Hub.Nonces.History.{after, burn_iff}
use siwx_go.Contracts.Nonces.{Call, issues, burns, promised}
use siwx_go.Hub.Nonces.{NonceStore, burned, issue, burn}
use siwx_go.Siwx.Caip.RoundTrip.{IsAccount}
use siwx_go.Siwx.Caip.{Caip10, string10, re_namespace, re_reference, re_address}
use siwx_go.Go.Hex.{hex_encode}

abbrev bytes : Bytes
bytes = replicate 16 171

abbrev empty : NonceStore
empty = []

abbrev one : NonceStore
one = (issue (some bytes) 10 10 100 empty).1

abbrev after_burn : NonceStore
after_burn = (burn (hex_encode bytes) 20 one).1

abbrev later : NonceStore
later = (issue (some (replicate 16 1)) 30 30 100 after_burn).1

other_nonce : equal (hex_encode (replicate 16 1)) (hex_encode bytes) ≡ false
unfolding equal hex_encode
other_nonce = refl

abbrev wallet : Caip10
wallet = record {
  chain_id = record { namespace = codes "solana"; reference = codes "mainnet" };
  address = codes "11111111";
}

abbrev nobody : IdentityStore
nobody = record { wallet_to_id = []; id_to_wallets = [] }

abbrev somebody : IdentityStore
somebody = (upsert_by_wallet (some bytes) wallet nobody).1

abbrev new_id : Bytes
new_id = codes "id_" ++ hex_encode bytes

added : (upsert_by_wallet (some bytes) wallet nobody).0 ≡ upserted new_id true
unfolding upsert_by_wallet lookup
added = refl

abbrev two_people : IdentityStore
two_people = record {
  wallet_to_id = (string10 wallet, codes "id_1") ∷ [];
  id_to_wallets = (codes "id_1", string10 wallet ∷ []) ∷ (codes "id_2", []) ∷ [];
}

apart_ids : equal (codes "id_2") (codes "id_1") ≡ false
unfolding equal
apart_ids = refl

wallet-IsAccount : IsAccount wallet
unfolding re_namespace re_reference re_address all_bytes
wallet-IsAccount = record {
  chain = record { namespace_matches = refl; reference_matches = refl };
  address_matches = refl;
}

-- One nonce is issued and burned, another is issued.
abbrev past : List Call
past =
    issues (some (replicate 16 1)) 30 30 100
    ∷ burns (hex_encode bytes) 20
    ∷ issues (some bytes) 10 10 100
    ∷ []

burn_iff_example :
    ((burn (hex_encode (replicate 16 1)) 40 (after past)).0 ≡ burned)
    ↔ ((x : ℕ) × (promised past (hex_encode (replicate 16 1)) ≡ some x) × (40 ≤ x))
burn_iff_example = burn_iff past (hex_encode (replicate 16 1)) 40 (omega arith)

abbrev vars : Environment
vars = (codes "PORT", codes "1") ∷ []

abbrev dot_env : List Bytes
dot_env = codes "PORT=2" ∷ codes "TTL=-15" ∷ codes "TTL=3" ∷ []

env-load_dot_env_example :
    env (load_dot_env vars dot_env) (codes "TTL") (codes "10")
    ≡ non_empty
        (or_else (lookup vars (codes "TTL")) (file_value (codes "TTL") dot_env))
        (codes "10")
env-load_dot_env_example = env-load_dot_env vars dot_env (codes "TTL") (codes "10")

env_int-int_text_example : env_int (load_dot_env vars dot_env) (codes "TTL") (pos 10) ≡ negsuc 14
unfolding lookup equal binding decimal contains_byte
env_int-int_text_example =
    env_int-int_text vars dot_env (codes "TTL") (negsuc 14) (pos 10) refl (omega arith)

relink_back_example :
    ((link_wallet (codes "id_2") wallet two_people).0 ≡ done)
    × (link_wallet (codes "id_1") wallet (link_wallet (codes "id_2") wallet two_people).1
        ≡ (done, (link_wallet (codes "id_2") wallet two_people).1))
    × ((upsert_by_wallet (some bytes) wallet (link_wallet (codes "id_2") wallet two_people).1).0
        ≡ upserted (codes "id_2") false)
unfolding lookup linked equal
relink_back_example =
    relink_back (some bytes) wallet two_people (codes "id_1") (codes "id_2") (string10 wallet ∷ [])
      [] refl refl refl refl refl
