-- ===== src/Siwx/Evm/EvmRpc.antt =====
-- siwx/evm/evmrpc/resolver.go. A call of `ethClient` holds the lock of its client, so it is one step.
-- `ethclient` is a parameter: a type of connections, what `DialContext` gives in one call, and what a call
-- over a connection answers.
use siwx_go.Base.{List, [], ◌∷◌, Bytes, Option, none, some, ◌≡◌, refl, ap, ◌∙◌}
use siwx_go.Go.Maps.{lookup, insert}
use siwx_go.Siwx.Errors.{Error}
use siwx_go.Siwx.Evm.Chain.{Answer, refused}

module _ (Conn : Type 0) where
  -- What dialling comes to, and `ethClient` with it.
  pub data Dial : Type 0 where
    dialled : Conn → Dial
    not_dialled : Error → Dial

  -- `client`
  pub record Client : Type 0 where
    pub url : Bytes
    pub eth : Option Conn

  -- `NewResolver`, over the entries of its map.
  unfoldable pub new_resolver : List (Bytes × Bytes) → List (Bytes × Client)
  new_resolver [] = []
  new_resolver ((chain_id, url) ∷ rest) =
      insert (new_resolver rest) chain_id (record { url = url; eth = none })

  -- `ClientFor`
  unfoldable pub client_for : List (Bytes × Client) → Bytes → Option Client
  unfolding lookup
  client_for clients chain_id = lookup clients chain_id

  -- `ethClient`: `dial` is what `DialContext` gives if it is called now.
  unfoldable pub keep : Client → Dial → Dial × Client
  keep c (not_dialled e) = (not_dialled e, c)
  keep c (dialled conn) = (dialled conn, record c { eth = some conn })

  unfoldable pub connect : (Bytes → Dial) → Client → Option Conn → Dial × Client
  unfolding keep
  connect dial c (some conn) = (dialled conn, c)
  connect dial c none = keep c (dial c.url)

  unfoldable pub eth_client : (Bytes → Dial) → Client → Dial × Client
  unfolding connect
  eth_client dial c = connect dial c c.eth

  -- What a method does with the result.
  unfoldable pub call_over : (Conn → Answer) → Dial × Client → Answer × Client
  call_over call (not_dialled e, c) = (refused e, c)
  call_over call (dialled conn, c) = (call conn, c)

  -- `CallContract`, `CodeAt` and `CallContractCreation`, by the call that each makes.
  unfoldable pub ask : (Bytes → Dial) → (Conn → Answer) → Client → Answer × Client
  unfolding eth_client call_over
  ask dial call c = call_over call (eth_client dial c)

  -- Calls of any methods, one after the other.
  unfoldable pub ask_all : List ((Bytes → Dial) × (Conn → Answer)) → Client → Client
  unfolding ask
  ask_all [] c = c
  ask_all ((dial, call) ∷ calls) c = ask_all calls (ask dial call c).1

  ask_connected :
      (dial : Bytes → Dial) (call : Conn → Answer) (c : Client) (conn : Conn)
      → c.eth ≡ some conn
      → ask dial call c ≡ (call conn, c)
  unfolding ask eth_client connect call_over
  ask_connected dial call c conn h = ap (λ o. call_over call (connect dial c o)) h

  ask_all_connected :
      (calls : List ((Bytes → Dial) × (Conn → Answer))) (c : Client) (conn : Conn)
      → c.eth ≡ some conn
      → ask_all calls c ≡ c
  unfolding ask_all
  ask_all_connected [] c conn h = refl
  ask_all_connected ((dial, call) ∷ calls) c conn h =
      ap (λ r. ask_all calls r.1) (ask_connected dial call c conn h)
      ∙ ask_all_connected calls c conn h

  kept :
      (c : Client) (d : Dial) (conn : Conn)
      → (keep c d).0 ≡ dialled conn
      → (keep c d).1.eth ≡ some conn
  unfolding keep
  kept c (not_dialled e) conn h = absurd cc
  kept c (dialled x) conn h = cc

  connected :
      (dial : Bytes → Dial) (c : Client) (o : Option Conn) (conn : Conn)
      → c.eth ≡ o
      → (connect dial c o).0 ≡ dialled conn
      → (connect dial c o).1.eth ≡ some conn
  unfolding connect
  connected dial c none conn e h = kept c (dial c.url) conn h
  connected dial c (some x) conn e h = let same : x ≡ conn = cc in e ∙ ap some same

  connected_after :
      (dial : Bytes → Dial) (c : Client) (conn : Conn)
      → (eth_client dial c).0 ≡ dialled conn
      → (eth_client dial c).1.eth ≡ some conn
  unfolding eth_client
  connected_after dial c conn h = connected dial c c.eth conn refl h

  -- Once a client has a connection, every later call, whatever calls come in between and whatever
  -- dialling would give, is made over that connection and leaves the client as it is.
  pub one_connection :
      (dial dial' : Bytes → Dial) (c : Client) (conn : Conn)
      (calls : List ((Bytes → Dial) × (Conn → Answer))) (call : Conn → Answer)
      → (eth_client dial c).0 ≡ dialled conn
      → ask dial' call (ask_all calls (eth_client dial c).1) ≡ (call conn, (eth_client dial c).1)
  one_connection dial dial' c conn calls call h =
      let held = connected_after dial c conn h in
      ap (ask dial' call) (ask_all_connected calls (eth_client dial c).1 conn held)
      ∙ ask_connected dial' call (eth_client dial c).1 conn held
