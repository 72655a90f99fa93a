-- ===== src/InMemory.antt =====
-- backend/src/adapters/persistence/in_memory.rs: the repositories of the in-memory stack. The state
-- of each is what its mutexes guard; a method takes its locks and releases them before it returns,
-- so it is one step on that state. None of them fails. `World` puts the repositories together with
-- what lies outside the process, which only the dispatchers, senders and notifiers change.
pub mod Jobs
pub mod Searches
pub mod Tokens
pub mod Users
pub mod Channels
pub mod Audit
pub mod Documents
pub mod World
pub mod Stack
mod Examples
