-- ===== src/Postgres.antt =====
-- backend/src/adapters/persistence/postgres.rs with backend/migrations: the repositories of
-- production. An SQL statement is a function on the tables, with PostgreSQL's documented meaning;
-- what the server and its driver decide is a parameter (Postgres/Server).
mod Examples
pub mod Server
pub mod Columns
pub mod Tables
pub mod Users
pub mod Tokens
pub mod Jobs
pub mod Results
pub mod Searches
pub mod Audit
pub mod Channels
pub mod Documents
pub mod Leader
pub mod Integrity
pub mod World
