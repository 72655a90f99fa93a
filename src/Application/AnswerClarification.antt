-- ===== src/Application/AnswerClarification.antt =====
-- backend/src/application/answer_clarification.rs: the user answers the agent's question.
pub mod Outcomes
use ai_agent_boilerplate.Prelude.{Option, none, some, List, [], ◌==◌, if◌then◌else◌}
use ai_agent_boilerplate.Text.{Text}
use ai_agent_boilerplate.Exec.{
  ◌>>=◌, ◌>>◌, Exec, Result, ok, err, pure, raise, from_result, map_err, attempt, ok_or,
}
use ai_agent_boilerplate.Domain.{Uuid, Time}
use ai_agent_boilerplate.Domain.Job.{JobError, ResearchJob, provide_answer, fail}
use ai_agent_boilerplate.Ports.{PortError, JobRepository, JobDispatcher}
use ai_agent_boilerplate.Application.{dispatch_failure}

pub data AnswerError : Type 0 where
  not_found : AnswerError
  invalid_answer : JobError → AnswerError
  dispatch_failed : AnswerError
  infrastructure : PortError → AnswerError

-- `.filter(|job| job.user_id == user_id)`
abbrev pub owned_by : Uuid → Option ResearchJob → Option ResearchJob
owned_by user_id none = none
owned_by user_id (some job) = if job.user_id == user_id then some job else none

-- `job.provide_answer(answer)?` on a job held by value.
abbrev pub answered : Result JobError Unit → ResearchJob → Result AnswerError ResearchJob
answered (ok _) job = ok job
answered (err e) job = err (invalid_answer e)

module _ {S : Type 0} (jobs : JobRepository S) (dispatcher : JobDispatcher S) where
  abbrev pub seen_urls : Option Uuid → Exec AnswerError S (List Text)
  seen_urls none = pure []
  seen_urls (some rs_id) = map_err infrastructure (jobs.recent_urls_for_recurring rs_id 200)

  abbrev pub dispatched :
      Time → ResearchJob → Result PortError Unit → Exec AnswerError S ResearchJob
  dispatched now job (ok _) = pure job
  dispatched now job (err e) = do
    map_err infrastructure (jobs.update (fail (dispatch_failure e) now job))
    raise dispatch_failed

  -- `now` is when a failed dispatch is recorded.
  unfoldable pub execute : Time → Uuid → Uuid → Text → Exec AnswerError S ResearchJob
  execute now user_id job_id answer = do
    stored ← map_err infrastructure (jobs.find job_id)
    found ← ok_or not_found (owned_by user_id stored)
    job ← from_result (answered (provide_answer answer found).0 (provide_answer answer found).1)
    map_err infrastructure (jobs.clear_steps job_id)
    map_err infrastructure (jobs.update job)
    urls ← seen_urls job.recurring_search_id
    sent ← attempt (dispatcher.dispatch job urls)
    dispatched now job sent
