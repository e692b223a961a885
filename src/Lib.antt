-- ===== src/Lib.antt =====
-- A model of naralabs-atlas, which follows a Stellar chain, stores its contract events, and keeps a registry of
-- the schemas that its users publish for them.
--
-- The parts, from the bottom up, and the files that model them:
--   RpcChain: lib/rpcchain. Pool.antt is the endpoint pool (pool.go), Retry.antt the retries with their backoff
--     (retry.go), Throttle.antt the throttle (throttle.go), Errors.antt the errors and their chains.
--   Stellar: internal/client/stellar. Client.antt is one page of FetchEvents through throttle, pool and
--     retries (resilient_client.go), Fetch.antt the loop over the pages, Batches.antt the filters, Model.antt the
--     data (stellar_dto.go), RpcClient.antt the plain client (stellar_rpc_client.go).
--   Config: config/config.go, the lists of URLs and contracts and START_LEDGER.
--   Ingest: internal/module/ingest. Timing.antt is the start ledger and the poll interval (helpers.go),
--     Materialize.antt makes the rows (event_materializer.go, semantic_enricher.go), Store.antt writes them and
--     Worker.antt is a cycle of the worker and Worker/Run.antt its loop (ingest_worker_service.go), Backfill.antt and Replay.antt are
--     backfill_service.go and replay_service.go.
--   Realtime: lib/realtime. Hub.antt is the hub of WebSocket clients (hub.go).
--   Registry: internal/module/registry. Bundles.antt groups published schemas (bundle_group.go), Contracts.antt lists the
--     contracts that have published schemas and counts them (schema_bundle_service.go), Validate.antt checks
--     names (validate.go). Verify.antt and Verify/Service.antt are the verification of contracts
--     (verify_service.go, contract_authority_service.go and the statements of their repositories), Verify/Promote.antt
--     the transaction that promotes schemas (schema_repository.go).
--   Auth: internal/module/auth. Users.antt and Links.antt are auth_repository.go, Sessions.antt and Accounts.antt
--     auth_service.go; Tokens.antt and Tokens/Service.antt are the API keys and the publish tokens
--     (api_key_repository.go, api_key_service.go, publish_token_repository.go, publish_token_service.go).
--   Database: a service over PostgreSQL as a state that statements change or fail on, with transactions, a clock and
--     a random source; Auth and Registry.Verify run on it.
-- The worker, the backfill and the replay call the client for events, Materialize for the rows and the
-- repositories for their storage; the client calls the pool within the retries, and the throttle before it.
-- Sessions and tokens of Auth tell the registry who calls.
--
-- State is passed explicitly: a method on a struct takes the fields that it changes, and a type `W` for all that
-- is outside (servers, tables, clock, timers). Code outside the program, SQL repositories and the parsers of
-- lib/scval are fields of records of functions (Servers, Waiting, Services, BackfillServices, ReplayServices)
-- or arguments. A theorem on what the code does to the outside runs it on an outside with a log. Go errors are
-- values of RpcChain.Errors.Error, and a runtime panic is one of them or `none`. Machine integers are
-- numbers with the wrap-around written out; durations are int64 bit patterns. Texts are lists of bytes.
--
-- Auth and Registry.Verify run on tables as lists of rows in the order of insertion, with the unique constraints that
-- the code relies on. Each statement fails where a list of faults says so, so that a theorem holds for every choice of
-- failing statements. bcrypt, JWT, SHA-256, Ed25519, addresses and URLs are fields of records of functions.
--
-- Loops over slices are structural recursion. The loops of FetchEvents, of the backfill and of the replay take
-- fuel and are `none` without it: for the first `limit + 1` pages are enough on servers that keep to the limit,
-- for the second one more round than there are ledgers; the third has states that no fuel gets past.
--
-- Not modelled: the profile and the bundle detail of a contract, logging, metrics and contexts beyond their
-- answers, HTTP handlers and routes, the SQL of the ingest and explore repositories, the start-up commands,
-- publishing of schemas and projects in the registry, and the modules explore and decoder with their libraries.
pub mod Prelude
pub mod Config
pub mod Database
pub mod RpcChain
pub mod Stellar
pub mod Auth
pub mod Ingest
pub mod Registry
pub mod Realtime
pub mod Examples
