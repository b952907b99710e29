-- ===== src/Lib.antt =====
-- Sign-in with a wallet: the Go packages siws and siwx, the adapters of siwx for Solana and for EVM
-- chains, the example server and its JWT middleware, and the loader of the test vectors.
--
-- A wallet signs a text message that names a domain, an account, a nonce and a time window. Package
-- siws parses such a message, prints it and verifies the Ed25519 signature over its bytes. Package
-- siwx hides the chain: a registry finds the verifier of a namespace, calls it with an observer, a
-- clock and an attempt identifier, and reports what came of it. The adapter in siwx/solana turns
-- siws into such a verifier; the one in siwx/evm does so with siwe-go, and asks a client of the chain
-- where the account may be a contract. The server in examples/hub issues nonces, hands messages to
-- the registry, keeps the identities of wallets and issues tokens; examples/middleware checks them.
--
-- Base holds what the modules share: tests on numbers and bytes, lists measured by native numbers.
-- Go is Go's library as the program uses it: Go.Strings (packages strings and bytes), Go.BigInt
-- (math/big, as digits), Go.Hex, Go.Base64, Go.Strconv (also `Atoi`), Go.Maps (a map is the list of its entries),
-- Go.Time. A Go string is the list of its bytes.
--
-- Siws.Errors: siws/errors.go, and each error text as a constructor; `Result` is a value, an error or
--   a panic, so that an index out of range, of the lines of a message or of the table of base-58
--   letters, and a call that is documented to panic are values that theorems can exclude.
-- Siws.Base58: siws/base58.go (`DecodeBase58`, `EncodeBase58`).
-- Siws.Message: siws/message.go (`Message`, `String`).
-- Siws.Fields, Siws.Trailer, Siws.Parse: siws/parse.go (`ParseMessage` and its helpers). `lines[pos:]`
--   is a list; the two nested loops over the optional fields are one pass over the lines, with a
--   flag for "inside the inner loop". The loop is structural recursion on the lines: no fuel.
-- Siws.Grammar: the texts that a message may have, said without a parser.
-- Siws.Verify: siws/verify.go (`VerifyRaw`, `Verify`).
-- Siwx.Errors, Siwx.Caip, Siwx.Observer, Siwx.Verifier, Siwx.Registry: the files of siwx/ with these
--   names. A run is the list of the calls that it makes to the observer, with its outcome. A clock is
--   the sequence of its readings. Siwx.Registry.Trace has the laws that the registry relies on, as a
--   record that each adapter fills.
-- Siwx.Checks: the loop over the checks, which both adapters spell the same way.
-- Siwx.Solana: siwx/solana/adapter.go.
-- Siwx.Evm: siwx/evm/adapter.go (`Verify`); Siwx.Evm.Signature (`verifySignature`, and
--   `validateERC6492` of siwx/evm/erc6492.go), Siwx.Evm.Calldata (the words of the ERC-1271 call),
--   Siwx.Evm.Chain (the interfaces of the clients, and the libraries), Siwx.Evm.Bytecode
--   (`mustDecodeHex`), Siwx.Evm.EvmRpc (siwx/evm/evmrpc/resolver.go).
-- Hub.Nonces, Hub.Identities: examples/hub/stores.go (`memNonceStore`, `memIdentityStore`). A method
--   holds the lock, so it is one step.
-- Hub.Recorder: the buffer and the counters of examples/hub/observe.go (`Recorder`); Hub.Metrics: the
--   text that `render` makes of them. Hub.Nonces.History: the nonce store against its contract.
-- Hub.ContractWallet: examples/hub/contractwallet.go, the simulated chain.
-- Hub.Problems: examples/hub/problems.go. Hub.Issuer: examples/hub/issuer.go.
-- Hub.Handlers: examples/hub/handlers.go. The state of the server is the record `Hub`; a handler maps
--   a request and the state to a reply and the state. A request runs as one step between others; what
--   it reads of the clocks and of `rand.Read` is the record `Draws`.
-- Hub.Config: examples/hub/config.go (`envBool`, `envInt`, `loadDotEnv`, `loadConfig`), with `env` and
--   `buildDomain` of examples/hub/main.go. Hub.Server: the registry of examples/hub/main.go and the
--   state at the start; Hub.Server.Routes: `limitBody`, the routes and the two middlewares.
-- Middleware: examples/middleware/jwt.go. A look-up in the cache of keys takes up to three steps, each
--   with the map as it then is.
-- Contracts: the sentinels and the interfaces of the two stores of contracts/contracts.go, with their
--   promises as laws; Contracts.Fills: the stores of the server as implementations.
-- TestVectors: internal/testvectors/load.go.
-- Tests: the theorems at small inputs, with a clock that writes instants in unary.
--
-- Parameters of the model: `ed25519.Verify`; the package time (`TimeLib`, with the laws that `Parse`
-- reads back what `Format` wrote for whole milliseconds, and that a timestamp is one line); the bytes
-- of `rand.Read`; the clocks; the order in which Go ranges over a map; siwe-go and go-ethereum; what
-- the clients of a chain answer; gin, encoding/json and the JWT library, with the law that a token
-- of claims in whole seconds parses to them and is valid under the issuer's key until they expire. Two
-- documented behaviours of libraries are written out: `ed25519.Verify` panics on a key that is not of
-- 32 bytes, and `jwt.NewNumericDate` truncates to whole seconds. siwe-go's `VerifyEIP191` may panic, and is
-- relied upon not to where the signature has 65 bytes. The
-- sizes that bound a statement are the parser's own limit of 8 KiB, base-58's of 128 characters, 2^32
-- for the length of a signature in a call of a contract, and 2^64 for the exponent of a key.
--
-- Not modelled: durations in events, locks within a method, contexts, the zone of a timestamp; the
-- log; which route gin takes and what it answers where none fits, and the start of the listener;
-- the declarations of contracts/contracts.go that siwx/ repeats, which are modelled there. Two
-- requests that run at the same time are not interleaved within a handler: each store keeps its own
-- lock, and the theorems on the stores themselves hold for any order of their calls. A failure
-- whose error is no sentinel is counted with the others of its kind, since the text of such an
-- error is not known.
pub mod Base
pub mod Go
pub mod Siws
pub mod Siwx
pub mod Hub
pub mod Middleware
pub mod Contracts
pub mod TestVectors
pub mod Tests
