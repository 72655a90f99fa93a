-- ===== src/Background.antt =====
-- backend/src/main.rs and adapters/leader_lock.rs: the background loop, tick by tick. Every step is
-- run whatever became of the ones before it; a failure is logged and dropped.
pub mod Purges
mod Examples
use ai_agent_boilerplate.Prelude.{ℕ, ◌-◌, ◌*◌, ◌%◌, ◌^◌, Bool, true, false, ltb, if◌then◌else◌}
use ai_agent_boilerplate.Text.{Text}
use ai_agent_boilerplate.Exec.{Result}
use ai_agent_boilerplate.Domain.{Time, days}
use ai_agent_boilerplate.Domain.Job.{JobError}
use ai_agent_boilerplate.Ports.{
  Port, JobRepository, RecurringSearchRepository, RefreshTokenRepository, SecurityAudit,
  JobDispatcher,
}
use ai_agent_boilerplate.Application.{Draw}
use ai_agent_boilerplate.Application.FailStaleJobs
use ai_agent_boilerplate.Application.RunDueSearches

pub record LeaderLock (S : Type 0) : Type 0 where
  pub acquire : S → Bool × S
  pub release : S → S

-- Always leads: a single instance.
abbrev pub noop_leader_lock : {S : Type 0} → LeaderLock S
noop_leader_lock = record { acquire = λ s. (true, s); release = λ s. s }

-- The part of the configuration that the loop reads.
pub record Settings : Type 0 where
  pub job_timeout_minutes : ℕ
  pub daily_search_quota : ℕ
  pub data_retention_days : ℕ
  pub security_retention_days : ℕ

-- What one tick reads of the clock and draws, in the order of its steps.
pub record TickDraw : Type 0 where
  pub reaper_clock : Time
  pub reaped_at : ℕ → Time
  pub scheduler_clock : Time
  pub draws : ℕ → Draw
  pub purge_clock : Time
  pub data_clock : Time
  pub security_clock : Time

-- A call whose result is only logged.
abbrev pub logged : {S A : Type 0} → Port S A → S → S
logged m s = (m s).1

module _ {S : Type 0} (settings : Settings) (jobs : JobRepository S)
    (recurring : RecurringSearchRepository S) (refresh_tokens : RefreshTokenRepository S)
    (audit : SecurityAudit S) (dispatcher : JobDispatcher S) (leader : LeaderLock S)
    (from_std : ℕ → Result Text ℕ) (reason : ℕ → Text) (job_error_text : JobError → Text) where
  -- `Duration::from_secs(config.job_timeout_minutes * 60)`, on a `u64`, which wraps in a release
  -- build.
  abbrev pub job_timeout : ℕ
  job_timeout = settings.job_timeout_minutes * 60 % 2 ^ 64

  unfoldable pub reap : TickDraw → S → S
  reap d =
      logged (FailStaleJobs.execute jobs from_std reason job_timeout d.reaper_clock d.reaped_at)

  unfoldable pub schedule : TickDraw → S → S
  schedule d = logged (
      RunDueSearches.execute recurring jobs dispatcher settings.daily_search_quota job_error_text
        d.scheduler_clock d.draws)

  unfoldable pub purge_tokens : TickDraw → S → S
  purge_tokens d = logged (refresh_tokens.delete_expired d.purge_clock)

  -- A retention of 0 days keeps finished one-shot searches forever.
  unfoldable pub purge_jobs : TickDraw → S → S
  purge_jobs d s =
      if ltb 0 settings.data_retention_days
      then logged (jobs.delete_finished_before (d.data_clock - days settings.data_retention_days)) s
      else s

  -- A retention of 0 days keeps security events forever.
  unfoldable pub purge_events : TickDraw → S → S
  purge_events d s =
      if ltb 0 settings.security_retention_days
      then logged (audit.delete_before (d.security_clock - days settings.security_retention_days)) s
      else s

  abbrev pub work : TickDraw → S → S
  work d s = leader.release (purge_events d (purge_jobs d (purge_tokens d (schedule d (reap d s)))))

  abbrev pub led : TickDraw → Bool → S → S
  led d true s = work d s
  led d false s = s

  -- One turn of the loop: only the leader works.
  unfoldable pub tick : TickDraw → S → S
  unfolding reap schedule purge_tokens purge_jobs purge_events
  tick d s = led d (leader.acquire s).0 (leader.acquire s).1
