-- ===== src/Http.antt =====
-- backend/src/adapters/http/mod.rs: the routes' handlers, from a parsed request to a response.
pub mod Headers
pub mod Tokens
pub mod Views
pub mod State
pub mod Auth
pub mod Account
pub mod Documents
pub mod Searches
pub mod Recurring
pub mod Internal
pub mod Router
pub mod Layers
pub mod Sse
pub mod Fixtures
mod Examples
