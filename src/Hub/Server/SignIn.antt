-- ===== src/Hub/Server/SignIn.antt =====
-- examples/hub/main.go and examples/hub/handlers.go over the adapters: the sign-ins of the server.
use siwx_go.Base.{
  ℕ, List, [], Bytes, codes, Bool, Option, none, some, equal, equal_iff, ◌≡◌, ◌≢◌, ◌⊎◌, refl, sym,
  ap, ◌∙◌, inl, inr, Bool-cases,
}
use siwx_go.Go.Time.{TimeLib}
use siwx_go.Hub.ContractWallet.{Owners, client_for}
use siwx_go.Hub.Handlers.Http.{Request, Hub, Env, Draws}
use siwx_go.Hub.Handlers.Login.{IsLogin, post_verify-IsLogin}
use siwx_go.Hub.Handlers.{Presented, opts_for, post_verify}
use siwx_go.Hub.Server.{hub_registry}
use siwx_go.Siwx.Errors.{returned}
use siwx_go.Siwx.Evm as Evm
use siwx_go.Siwx.Evm.Chain.{ChainClient, Resolver, Libs}
use siwx_go.Siwx.Evm.Refines as EvmRefines
use siwx_go.Siwx.Registry.Dispatch.{verify-IsFrom}
use siwx_go.Siwx.Registry.Lookup.{find-register}
use siwx_go.Siwx.Registry.{find, register}
use siwx_go.Siwx.Solana as Solana
use siwx_go.Siwx.Solana.Refines as SolanaRefines
use siwx_go.Siwx.Solana.{Entry}
use siwx_go.Siwx.Verifier.{VerifyOpts, Identity, Verifier, nil, observer}

pub observed : observer 0 ≢ nil
observed h = cc

some_inj : {v w : Verifier} → some v ≡ some w → v ≡ w
some_inj h = cc

none_not : {v : Verifier} → ¬ (none ≡ some v)
none_not h = cc

module _ (ed25519_verify : Bytes → Bytes → Bytes → Bool) (time : TimeLib) (order : List Entry)
    {M : Type 0} (lib : Libs M) (demo : Owners → ChainClient) where
  -- The resolver of the EVM adapter.
  abbrev pub resolver_for : Option Owners → Option Resolver
  resolver_for none = none
  resolver_for (some owners) = some (client_for (demo owners))

  two_adapters :
      (resolver : Option Resolver) (ns : Bytes) (v : Verifier)
      → find
          (register
            (register [] (Solana.adapter ed25519_verify time order))
            (Evm.adapter lib resolver))
          ns
        ≡ some v
      → ((codes "solana" ≡ ns) × (Solana.adapter ed25519_verify time order ≡ v))
        ⊎ ((codes "eip155" ≡ ns) × (Evm.adapter lib resolver ≡ v))
  unfolding find
  two_adapters resolver ns v h =
      let solana = Solana.adapter ed25519_verify time order in
      let evm = Evm.adapter lib resolver in
      let h' = sym (find-register (register [] solana) evm ns) ∙ h in
      elim (Bool-cases (equal (codes "eip155") ns)) [
        | inl e ↦ inr ((equal_iff (codes "eip155") ns).0 e, some_inj (rw e at h'))
        | inr e ↦
            let h'' = sym (find-register [] solana ns) ∙ rw e at h' in
            elim (Bool-cases (equal (codes "solana") ns)) [
              | inl f ↦ inl ((equal_iff (codes "solana") ns).0 f, some_inj (rw f at h''))
              | inr f ↦ absurd (none_not (rw f at h''))
            ]
      ]

  module _ (wallets : Option Owners) (clock : ℕ → ℕ) (opts : VerifyOpts)
      (given : opts.observer ≢ nil) (timed : opts.clock ≡ some clock) (p : Presented)
      (i : Identity) where
    -- The message was verified by one of the two adapters, the one of its chain.
    pub data SignedIn : Type 0 where
      with_solana :
          codes "solana" ≡ p.chain.namespace
          → SolanaRefines.IsVerified ed25519_verify time order clock opts given timed p.msg p.sig i
          → SignedIn
      with_evm :
          codes "eip155" ≡ p.chain.namespace
          → EvmRefines.IsSignIn lib (resolver_for wallets) clock opts given timed p.msg p.sig i
          → SignedIn

    signed_in :
        (v : Verifier)
        → find (hub_registry ed25519_verify time order lib demo wallets) p.chain.namespace ≡ some v
        → (v.verify p.msg p.sig opts).outcome ≡ returned i
        → SignedIn
    unfolding hub_registry
    signed_in v f r =
        elim (two_adapters (resolver_for wallets) p.chain.namespace v (by_wallets wallets v f)) [
          | inl (ns, e) ↦ with_solana ns (
              SolanaRefines.sound ed25519_verify time order clock opts given timed p.msg p.sig i
                ((λ j. ((e j).verify p.msg p.sig opts).outcome) ∙ r))
          | inr (ns, e) ↦ with_evm ns (
              EvmRefines.sound lib (resolver_for wallets) clock opts given timed p.msg p.sig i
                ((λ j. ((e j).verify p.msg p.sig opts).outcome) ∙ r))
        ]
      where
        by_wallets :
            (ws : Option Owners) (v : Verifier)
            → find (hub_registry ed25519_verify time order lib demo ws) p.chain.namespace ≡ some v
            → find
                (register
                  (register [] (Solana.adapter ed25519_verify time order))
                  (Evm.adapter lib (resolver_for ws)))
                p.chain.namespace
              ≡ some v
        by_wallets none v f = f
        by_wallets (some owners) v f = f

  -- The options of a login: the domain of the server, the nonce of the cookie, the wall clock.
  abbrev pub expected : Hub → Request → Draws → Bytes → VerifyOpts
  expected h req d id = record {
    expected_domain = h.domain;
    expected_nonce = req.nonce_cookie;
    observer = observer 0;
    clock = some d.wall;
    attempt_id = id;
  }

  -- A token of the server, down to the signature.
  pub record IsSigned (env : Env) (d : Draws) (req : Request) (h : Hub) : Type 0 where
    pub login : IsLogin env d req h
    pub attempt_id : Bytes
    pub verified :
        SignedIn h.demo_wallets d.wall
          (expected h req d attempt_id)
          observed
          refl
          login.presented
          login.identity

  -- With the registry that `main` sets up, `postVerify` answers 200 only to a login whose message one
  -- of the two adapters verified, the one of its chain, for the server's domain, the nonce of the cookie
  -- and the wall clock: on Solana `siws.VerifyRaw` accepted the Ed25519 signature, on EVM chains the
  -- signature was accepted by the key or by the contract of the address.
  pub post_verify-IsSigned :
      (env : Env) (d : Draws) (req : Request) (h : Hub)
      → env.registry ≡ hub_registry ed25519_verify time order lib demo
      → (post_verify env req d h).0.status ≡ 200
      → IsSigned env d req h
  post_verify-IsSigned env d req h wired ok =
      let l = post_verify-IsLogin env d req h ok in
      let p = l.presented in
      let (id, from) =
        verify-IsFrom d.wall d.registry_random (env.registry h.demo_wallets) p.chain p.msg p.sig
          l.identity (opts_for h req.nonce_cookie d l.attempt) l.verified in
      record {
        login = l;
        attempt_id = id;
        verified =
            signed_in h.demo_wallets d.wall (expected h req d id) observed refl p l.identity
              from.verifier
              (ap (λ r. find (r h.demo_wallets) p.chain.namespace) (sym wired) ∙ from.found)
              from.returns;
      }
