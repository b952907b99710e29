-- ===== src/Contracts/Fills.antt =====
-- contracts/contracts.go against examples/hub/stores.go and siwx/errors.go: the
-- implementations of the interfaces, and the copy of the sentinels.
use siwx_go.Base.{List, [], ◌∷◌, ◌≡◌, refl, ap}
use siwx_go.Contracts.{Sentinel, error_text}
use siwx_go.Contracts.Identities.{IdentityStoreLaws}
use siwx_go.Contracts.Identities as Identities
use siwx_go.Contracts.Nonces.{Call, issues, burns, NonceStoreLaws, state_after}
use siwx_go.Contracts.Nonces as Nonces
use siwx_go.Go.Maps.{lookup}
use siwx_go.Hub.Identities.Linked.{upsert_again}
use siwx_go.Hub.Identities.{IdentityStore, upsert_by_wallet, link_wallet, wallets}
use siwx_go.Hub.Nonces.History.{after, burn_iff}
use siwx_go.Hub.Nonces.{NonceStore, issue, burn}
use siwx_go.Siwx.Errors as Siwx

-- `memNonceStore`
abbrev pub mem_nonce_store : Nonces.NonceStore NonceStore
mem_nonce_store = record { start = []; issue = issue; burn = burn }

state_after-same : (past : List Call) → state_after mem_nonce_store past ≡ after past
state_after-same [] = refl
state_after-same (issues random swept now ttl ∷ past) =
    ap (λ s. (issue random swept now ttl s).1) (state_after-same past)
state_after-same (burns nonce now ∷ past) = ap (λ s. (burn nonce now s).1) (state_after-same past)

pub mem_nonce_store-Laws : NonceStoreLaws mem_nonce_store
mem_nonce_store-Laws = record {
  accepts = λ past n t h. rw (state_after-same past) (burn_iff past n t h);
}

-- `memIdentityStore`
abbrev pub mem_identity_store : Identities.IdentityStore IdentityStore
mem_identity_store = record {
  start = record { wallet_to_id = []; id_to_wallets = [] };
  upsert_by_wallet = upsert_by_wallet;
  link_wallet = link_wallet;
  wallets = wallets;
}

pub mem_identity_store-Laws : IdentityStoreLaws mem_identity_store
unfolding upsert_by_wallet lookup
mem_identity_store-Laws = record { creates = λ b w. (_, refl); keeps = upsert_again }

-- The sentinel of siwx with the name of one of the contracts.
abbrev pub translated : Sentinel → Siwx.Sentinel
translated Sentinel.malformed = Siwx.Sentinel.malformed
translated Sentinel.bad_signature = Siwx.Sentinel.bad_signature
translated Sentinel.expired = Siwx.Sentinel.expired
translated Sentinel.not_yet_valid = Siwx.Sentinel.not_yet_valid
translated Sentinel.domain_mismatch = Siwx.Sentinel.domain_mismatch
translated Sentinel.nonce_mismatch = Siwx.Sentinel.nonce_mismatch
translated Sentinel.unsupported_namespace = Siwx.Sentinel.unsupported_namespace

-- The sentinels of the contracts have the texts that those of siwx have.
pub error_text-translated : (s : Sentinel) → Siwx.error_text (translated s) ≡ error_text s
unfolding Siwx.error_text error_text
error_text-translated Sentinel.malformed = refl
error_text-translated Sentinel.bad_signature = refl
error_text-translated Sentinel.expired = refl
error_text-translated Sentinel.not_yet_valid = refl
error_text-translated Sentinel.domain_mismatch = refl
error_text-translated Sentinel.nonce_mismatch = refl
error_text-translated Sentinel.unsupported_namespace = refl
