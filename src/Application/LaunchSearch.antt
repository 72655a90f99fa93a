-- ===== src/Application/LaunchSearch.antt =====
-- backend/src/application/launch_search.rs: a user launches a research.
pub mod Outcomes
pub mod Quota
use ai_agent_boilerplate.Prelude.{ℕ, ◌-◌, [], leb, if◌then◌else◌}
use ai_agent_boilerplate.Text.{Text}
use ai_agent_boilerplate.Exec.{
  ◌>>=◌, ◌>>◌, Exec, Result, ok, err, pure, raise, from_result, convert, map_err, attempt,
}
use ai_agent_boilerplate.Domain.{Uuid, Time, hours}
use ai_agent_boilerplate.Domain.Job.{JobError, JobMode, ResearchJob, new, with_mode, fail}
use ai_agent_boilerplate.Ports.{PortError, JobRepository, JobDispatcher}
use ai_agent_boilerplate.Application.{Draw, dispatch_failure}

pub data LaunchError : Type 0 where
  invalid_job : JobError → LaunchError
  quota_exceeded : ℕ → LaunchError
  dispatch_failed : LaunchError
  infrastructure : PortError → LaunchError

module _ {S : Type 0} (jobs : JobRepository S) (dispatcher : JobDispatcher S)
    (daily_quota : ℕ) where
  -- A failed dispatch marks the stored job failed.
  abbrev pub dispatched :
      Time → ResearchJob → Result PortError Unit → Exec LaunchError S ResearchJob
  dispatched now job (ok _) = pure job
  dispatched now job (err e) = do
    map_err infrastructure (jobs.update (fail (dispatch_failure e) now job))
    raise dispatch_failed

  -- `clock` is the first `Utc::now()`, against which the quota is counted.
  unfoldable pub execute : Time → Draw → Uuid → Text → JobMode → Exec LaunchError S ResearchJob
  execute clock draw user_id keyword mode = do
    used ← map_err infrastructure (jobs.count_created_since user_id (clock - hours 24))
    if leb daily_quota used then raise (quota_exceeded daily_quota) else do
      created ← from_result (convert invalid_job (new draw.id draw.created user_id keyword))
      let job = with_mode mode created
      map_err infrastructure (jobs.insert job)
      sent ← attempt (dispatcher.dispatch job [])
      dispatched draw.failed job sent
