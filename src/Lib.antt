-- ===== src/Lib.antt =====
-- A verification library of the research assistant's backend: its entities, its repositories in
-- memory and in PostgreSQL, its use cases, its HTTP API, its background loop, its configuration and
-- the adapters that reach other services.
--
-- A user launches researches, which an agent outside the process carries out and reports on by
-- callbacks. Saved searches are launched again by a scheduler tick, and a reaper fails the jobs
-- that no worker reports on. The use cases (backend/src/application) read and write the entities
-- (backend/src/domain) through ports (backend/src/domain/ports.rs); the repositories of
-- backend/src/adapters/persistence fill the ports, in_memory.rs without a database and postgres.rs
-- in production, where several replicas share one database.
--
-- The files:
--   * Prelude, Exec, Text, Map, Sort: Booleans and lists over the native numbers; the state and
--     error monad of a fallible method; `str`, its `trim` and its bytes; `HashMap`; a stable sort.
--   * Domain: one module for each entity. Job is backend/src/domain/job.rs (`ResearchJob::new`,
--     `start`, `complete`, `fail`, `request_input`, `provide_answer`), Recurring is recurring.rs,
--     SearchResult is search_result.rs, Channel is notification_channel.rs, and Document,
--     RefreshToken, User and SecurityEvent are the files of those names.
--   * Ports: each trait of ports.rs as a record of operations over a shared state.
--   * InMemory: one module for each repository of in_memory.rs; World puts them together with the
--     state outside the process and makes the records of Ports, and Stack wires them up as main.rs
--     does without a database.
--   * Postgres: postgres.rs over the schema of backend/migrations. Tables is the schema with its
--     foreign keys, Server a statement and a transaction with what may become of them, and the
--     order in which a query meets rows, Columns the stored forms of the enums. Users, Tokens,
--     Jobs, Results, Searches, Audit, Channels and Documents are the repositories (Jobs and Results
--     are one of them), Leader is `PostgresLeaderLock`, Integrity the references between the
--     tables, and World puts the repositories together as main.rs does.
--   * Application: one module for each use case, a section over the ports that it calls. Below
--     each stand the theorems on it, over the in-memory repositories.
--   * RateLimit: backend/src/adapters/http/rate_limit.rs, with the limiter that replicas share by a
--     Redis server in Shared.
--   * Authentication: backend/src/adapters/auth/mod.rs, password hashes and access tokens.
--   * Http: backend/src/adapters/http/mod.rs. Headers is what the handlers read of a request's
--     headers, Views the responses, State `AppState` and the guards; Auth, Account, Documents,
--     Searches, Recurring and Internal are the handlers of those routes, and Router is
--     `router_with_limits`. Sse is sse.rs, the stream of a job's updates, and Layers is
--     request_id.rs and security_headers.rs.
--   * Background: a tick of the loop of backend/src/main.rs, behind adapters/leader_lock.rs.
--   * Config: backend/src/config.rs, from the environment to `AppConfig`.
--   * Outgoing: Hosts and Webhook are backend/src/adapters/digest.rs, Channels is notify.rs and
--     Agent is dispatch/mod.rs.
--   * Startup: the wiring of backend/src/main.rs, from a configuration to the router; Healthcheck:
--     backend/src/healthcheck.rs.
--
-- How the code is modelled:
--   * A method that changes state returns its result and the state after it, also beside an error:
--     what was written before an early return stays written.
--   * A `Uuid` is its number. A time is a number of nanoseconds since chrono's least date, so no
--     date is negative. What the code draws from the clock or the random source is an argument.
--   * A text is the list of its scalar values, and its UTF-8 length is computed where the code
--     measures bytes. A `HashMap` is a list of entries in any order. `i32` and `i64` sums wrap.
--   * A job's `f64` cost and the `f32` embeddings are bit patterns; their arithmetic is a
--     parameter. So are SHA-256, `to_lowercase`, the printed forms of errors, identifiers and
--     durations, chrono's conversion of a duration, the password and token services, and the
--     dispatchers, senders and notifiers, which may fail and change only the state outside.
--   * A request is what axum's extractors make of it: headers, route and parsed body. A response
--     is its status, the cookie that it sets and its body before it is written as JSON.
--   * An SQL statement is a function on the tables, with the meaning that PostgreSQL documents:
--     constraints, cascades, DISTINCT ON. Before each, the environment has chosen whether it is
--     answered, refused, or carried out with its answer lost. Other replicas' writes between the
--     statements of one method are not modelled, but for the contention for the lock.
--   * The instant that a bound time is stored as, the text order of the database, the approximate
--     index on embeddings and sums of `DOUBLE PRECISION` are parameters.
--   * Loops are recursions on the list that they walk, so none needs fuel, but for the polling
--     loop of the event stream, which takes a number of turns; the stream's lifetime in
--     milliseconds, and one more, are enough.
--
-- Not modelled: the run of the migrations and the SMTP transport, which only call other packages;
-- telemetry, TLS, the listener and the shutdown; the extraction of JSON and paths from requests;
-- and the agent and the frontend, which are other programs.
pub mod Prelude
pub mod Exec
pub mod Text
pub mod Map
pub mod Sort
pub mod Domain
pub mod Ports
pub mod Postgres
pub mod InMemory
pub mod Application
pub mod RateLimit
pub mod Http
pub mod Background
pub mod Startup
pub mod Healthcheck
pub mod Authentication
pub mod Config
pub mod Outgoing
