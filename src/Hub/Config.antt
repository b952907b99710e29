-- ===== src/Hub/Config.antt =====
-- examples/hub/config.go and the helpers `env` and `buildDomain` of examples/hub/main.go. The environment of the process is
-- a map; the file is the lines that its scanner gives.
pub mod Precedence
use siwx_go.Base.{
  ℕ, ◌+◌, List, [], ◌∷◌, ◌++◌, map, Bytes, codes, Bool, true, false, not, ◌&&◌, ◌||◌, ◌==◌, Option,
  none, some, if◌then◌else◌, leb, equal,
}
use mathlib.Core.List.{reverse}
use siwx_go.Go.Maps.{lookup, insert}
use siwx_go.Go.Strconv.{ℤ, pos, atoi}
use siwx_go.Go.Strings.{has_prefix, contains_byte, cut, trim_space}

-- The variables that are set.
abbrev pub Environment : Type 0
Environment = List (Bytes × Bytes)

-- `os.Getenv`
unfoldable pub getenv : Environment → Bytes → Bytes
unfolding lookup
getenv vars key = elim (lookup vars key) [ none ↦ [] | some v ↦ v ]

-- `os.Setenv`: no variable has an empty name, and none holds a zero byte.
unfoldable pub setenv : Environment → Bytes → Bytes → Environment
unfolding equal contains_byte
setenv vars key v =
    if equal key [] || contains_byte key b'=' || contains_byte key 0 || contains_byte v 0
    then vars
    else insert vars key v

-- `env`
unfoldable pub env : Environment → Bytes → Bytes → Bytes
unfolding getenv equal
env vars key fallback = let v = getenv vars key in if equal v [] then fallback else v

-- `ToLower`, as far as a comparison with words in small letters sees it.
unfoldable pub to_lower : Bytes → Bytes
to_lower s = map (λ c. if leb b'A' c && leb c b'Z' then c + 32 else c) s

unfoldable pub one_of : Bytes → List Bytes → Bool
unfolding equal
one_of v [] = false
one_of v (w ∷ ws) = equal v w || one_of v ws

-- `envBool`
unfoldable pub env_bool : Environment → Bytes → Bool → Bool
unfolding getenv to_lower trim_space one_of
env_bool vars key fallback =
    let v = to_lower (trim_space (getenv vars key)) in
    if equal v []
    then fallback
    else if one_of v (codes "1" ∷ codes "true" ∷ codes "yes" ∷ codes "on" ∷ [])
    then true
    else if one_of v (codes "0" ∷ codes "false" ∷ codes "no" ∷ codes "off" ∷ [])
    then false
    else fallback

-- `strings.Trim` with the cutset of both quotes.
unfoldable pub trim_left_quotes : Bytes → Bytes
trim_left_quotes [] = []
trim_left_quotes (c ∷ s) =
    let rest = trim_left_quotes s in if c == b'"' || c == 0x27 then rest else c ∷ s

unfoldable pub trim_quotes : Bytes → Bytes
unfolding trim_left_quotes
trim_quotes s = reverse (trim_left_quotes (reverse (trim_left_quotes s)))

-- A line that gives a variable its value, in front of the test whether it is set.
unfoldable pub binding : Bytes → Option (Bytes × Bytes)
unfolding trim_space has_prefix cut trim_quotes
binding text =
    let line = trim_space text in
    if equal line [] || has_prefix line (codes "#") then none else elim (cut line b'=') [
      | none ↦ none
      | some (key, v) ↦ some (trim_space key, trim_quotes (trim_space v))
    ]

unfoldable pub load_line : Environment → Bytes → Environment
unfolding binding lookup setenv
load_line vars text = elim (binding text) [
  | none ↦ vars
  | some (key, v) ↦ elim (lookup vars key) [ some _ ↦ vars | none ↦ setenv vars key v ]
]

-- `loadDotEnv`, on the lines of the file.
unfoldable pub load_dot_env : Environment → List Bytes → Environment
unfolding load_line
load_dot_env vars [] = vars
load_dot_env vars (text ∷ texts) = load_dot_env (load_line vars text) texts

-- `buildDomain`
unfoldable pub build_domain : Bytes → Bytes → Bytes
unfolding contains_byte
build_domain host port =
    if contains_byte host b':' || equal port [] then host else host ++ b':' ∷ port

-- `envInt`
unfoldable pub env_int : Environment → Bytes → ℤ → ℤ
unfolding getenv atoi
env_int vars key fallback =
    let v = getenv vars key in
    if equal v [] then fallback else elim (atoi v) [ none ↦ fallback | some n ↦ n ]

-- `Config`
pub record Config : Type 0 where
  pub domain : Bytes
  pub addr : Bytes
  pub jwks_url : Bytes
  pub issuer_url : Bytes
  pub audience : Bytes
  pub statement : Bytes
  pub solana_chain : Bytes
  pub session_ttl_min : ℤ
  pub contract_wallet_demo : Bool

-- The literal of `loadConfig`.
unfoldable pub config_of : Environment → Config
unfolding env env_int env_bool build_domain
config_of vars =
    let port = env vars (codes "SIWX_PORT") (codes "8081") in
    record {
      domain = build_domain (env vars (codes "SIWX_DOMAIN") (codes "localhost")) port;
      addr = env vars (codes "SIWX_ADDR") (b':' ∷ port);
      jwks_url =
          env vars (codes "SIWX_JWKS_URL")
            (codes "http://localhost:" ++ port ++ codes "/.well-known/jwks.json");
      issuer_url = env vars (codes "SIWX_ISSUER_URL") (codes "https://accounts.example.local");
      audience = env vars (codes "SIWX_AUDIENCE") (codes "siwx-go-demo");
      statement = env vars (codes "SIWX_STATEMENT") (codes "Sign in to siwx-go demo");
      solana_chain = env vars (codes "SIWX_SOLANA_CHAIN") (codes "mainnet");
      session_ttl_min = env_int vars (codes "SIWX_SESSION_TTL_MIN") (pos 10);
      contract_wallet_demo = env_bool vars (codes "SIWX_EVM_CONTRACT_DEMO") true;
    }

-- `loadConfig`, with the lines of `.env` where it can be opened.
unfoldable pub load_config : Environment → Option (List Bytes) → Config
unfolding config_of load_dot_env
load_config vars none = config_of vars
load_config vars (some texts) = config_of (load_dot_env vars texts)
