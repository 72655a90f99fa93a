-- ===== src/Application/Queries.antt =====
-- backend/src/application/queries.rs: what a user reads of their jobs.
pub mod Ownership
use ai_agent_boilerplate.Prelude.{not, Option, none, some, List, ◌==◌, if◌then◌else◌}
use ai_agent_boilerplate.Exec.{◌>>=◌, ◌>>◌, pure}
use ai_agent_boilerplate.Domain.{Uuid}
use ai_agent_boilerplate.Domain.Job.{ResearchJob, AgentStep}
use ai_agent_boilerplate.Domain.SearchResult.{SearchResult, sort_by_publication_date}
use ai_agent_boilerplate.Ports.{Port, JobRepository}

abbrev pub Detail : Type 0
Detail = ResearchJob × List SearchResult × List AgentStep

module _ {S : Type 0} (jobs : JobRepository S) where
  unfoldable pub list : Uuid → Port S (List ResearchJob)
  list user_id = jobs.list_for_user user_id

  abbrev pub detail_of : Uuid → Uuid → Option ResearchJob → Port S (Option Detail)
  detail_of user_id job_id none = pure none
  detail_of user_id job_id (some job) = if not (job.user_id == user_id) then pure none else do
    results ← jobs.results_for job_id
    steps ← jobs.steps_for job_id
    pure (some (job, sort_by_publication_date results, steps))

  unfoldable pub get : Uuid → Uuid → Port S (Option Detail)
  get user_id job_id = do found ← jobs.find job_id; detail_of user_id job_id found
