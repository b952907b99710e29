-- ===== src/Hub/Server.antt =====
-- examples/hub/main.go: the registry of the server, and the state that it starts with.
pub mod SignIn
pub mod Routes
pub mod Counted
pub mod Changes
pub mod Session
use siwx_go.Base.{
  ℕ, List, [], ◌∷◌, ◌++◌, Bytes, Bool, ◌||◌, Option, none, some, if◌then◌else◌, equal,
}
use siwx_go.Go.Time.{TimeLib}
use siwx_go.Hub.Config.{Config}
use siwx_go.Hub.ContractWallet.{Owners, client_for}
use siwx_go.Hub.Handlers.Http.{Hub}
use siwx_go.Siwx.Evm as Evm
use siwx_go.Siwx.Evm.Chain.{ChainClient, Libs}
use siwx_go.Siwx.Registry.{Registry, register}
use siwx_go.Siwx.Solana as Solana
use siwx_go.Siwx.Solana.{Entry}

-- What the two adapters stand on, and the client of the simulated chain with the wallets in its map.
module _ (ed25519_verify : Bytes → Bytes → Bytes → Bool) (time : TimeLib) (order : List Entry)
    {M : Type 0} (lib : Libs M) (demo : Owners → ChainClient) where
  -- The calls of `Register` in `main`: the map of wallets is there where the demo is enabled.
  unfoldable pub hub_registry : Option Owners → Registry
  unfolding register
  hub_registry none =
      register (register [] (Solana.adapter ed25519_verify time order)) (Evm.adapter lib none)
  hub_registry (some owners) =
      register (register [] (Solana.adapter ed25519_verify time order))
        (Evm.adapter lib (some (client_for (demo owners))))

-- The literal of `hub` in `main`, as far as it is state. `newDemoContractWallets` has an empty map.
unfoldable pub new_hub : Config → Hub
new_hub cfg = record {
  domain = cfg.domain;
  nonces = [];
  ids = record { wallet_to_id = []; id_to_wallets = [] };
  recorder = record {
    attempts_total = 0;
    failures_total = [];
    other_failures = 0;
    checks_total = [];
    checks = [];
  };
  nonces_issued = 0;
  nonces_burned = 0;
  tokens_issued = 0;
  demo_wallets = if cfg.contract_wallet_demo then some [] else none;
  display = record {
    statement = cfg.statement;
    solana_chain = cfg.solana_chain;
    session_ttl_min = cfg.session_ttl_min;
    contract_wallet_demo = cfg.contract_wallet_demo;
  };
}
