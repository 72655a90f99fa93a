-- ===== src/Postgres/Integrity.antt =====
-- The foreign keys of the schema, backend/migrations.
pub mod Replaced
pub mod Inserts
pub mod Drops
pub mod Statements
pub mod Rows
pub mod Calls
pub mod Transactions
pub mod Kept
use ai_agent_boilerplate.Prelude.{◌≡◌, Bool, true, ◌==◌, any, All}
use ai_agent_boilerplate.Domain.{Uuid}
use ai_agent_boilerplate.Postgres.Tables.{Tables}
use ai_agent_boilerplate.Postgres.Users.{has_user}
use ai_agent_boilerplate.Postgres.Jobs.{has_link}
use ai_agent_boilerplate.Postgres.Results.{has_job}
use ai_agent_boilerplate.Postgres.Audit.{has_actor}

-- `REFERENCES documents`
abbrev pub has_document : Uuid → Tables → Bool
has_document id t = any (λ d. d.id == id) t.documents

pub record IsIntact (t : Tables) : Type 0 where
  pub tokens : All (λ r. has_user r.user_id t ≡ true) t.refresh_tokens
  pub jobs : All (λ r. has_user r.user_id t ≡ true) t.research_jobs
  pub links : All (λ r. has_link r.recurring_search_id t.recurring_searches ≡ true) t.research_jobs
  pub results : All (λ r. has_job r.job_id t ≡ true) t.search_results
  pub steps : All (λ r. has_job r.job_id t ≡ true) t.agent_steps
  pub searches : All (λ r. has_user r.user_id t ≡ true) t.recurring_searches
  pub events : All (λ r. has_actor r.user_id t.users ≡ true) t.security_events
  pub channels : All (λ r. has_user r.user_id t ≡ true) t.notification_channels
  pub documents : All (λ r. has_user r.user_id t ≡ true) t.documents
  pub chunks : All (λ r. has_document r.document_id t ≡ true) t.document_chunks
  pub chunk_users : All (λ r. has_user r.user_id t ≡ true) t.document_chunks
