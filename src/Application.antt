-- ===== src/Application.antt =====
-- backend/src/application: the use cases. Each is a section over the ports that it calls and the
-- state `S` that they share; what an execution draws from the clock and the random source is an
-- argument.
pub mod LaunchSearch
pub mod AnswerClarification
pub mod IngestResults
pub mod FailStaleJobs
pub mod RunDueSearches
pub mod RecurringSearches
pub mod RefreshSession
pub mod LoginUser
pub mod RegisterUser
pub mod DeleteAccount
pub mod Knowledge
pub mod Profile
pub mod Queries
pub mod Fixtures
mod Examples
use ai_agent_boilerplate.Prelude.{◌++◌}
use ai_agent_boilerplate.Text.{Text, codes}
use ai_agent_boilerplate.Domain.{Uuid, Time}
use ai_agent_boilerplate.Ports.{PortError, port_error}

-- What the launch of one job draws: the new job's identifier, its creation time, and the time at
-- which a failed dispatch is recorded.
pub record Draw : Type 0 where
  pub id : Uuid
  pub created : Time
  pub failed : Time

-- `format!("dispatch failed: {err}")`
unfoldable pub dispatch_failure : PortError → Text
dispatch_failure (port_error message) = codes "dispatch failed: " ++ message
