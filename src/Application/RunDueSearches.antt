-- ===== src/Application/RunDueSearches.antt =====
-- backend/src/application/run_due_searches.rs: the scheduler tick.
pub mod Tick
pub mod Marks
use ai_agent_boilerplate.Prelude.{ℕ, suc, ◌+◌, ◌-◌, List, [], ◌∷◌, leb, if◌then◌else◌}
use ai_agent_boilerplate.Text.{Text}
use ai_agent_boilerplate.Exec.{◌>>=◌, ◌>>◌, Result, ok, err, pure, from_result, convert, attempt}
use ai_agent_boilerplate.Domain.{Time, hours}
use ai_agent_boilerplate.Domain.Job.{JobError, ResearchJob, new, with_mode, with_recurring, fail}
use ai_agent_boilerplate.Domain.Recurring.{RecurringSearch}
use ai_agent_boilerplate.Ports.{
  Port, PortError, port_error, JobRepository, RecurringSearchRepository, JobDispatcher,
}
use ai_agent_boilerplate.Application.{Draw, dispatch_failure}

abbrev pub seen_urls_limit : ℕ
seen_urls_limit = 200

module _ {S : Type 0} (recurring : RecurringSearchRepository S) (jobs : JobRepository S)
    (dispatcher : JobDispatcher S) (daily_quota : ℕ) (job_error_text : JobError → Text) where
  -- How many jobs a dispatch launched; a failed one marks the stored job failed.
  abbrev pub dispatched : Time → ResearchJob → Result PortError Unit → Port S ℕ
  dispatched now job (ok _) = pure 1
  dispatched now job (err e) = do jobs.update (fail (dispatch_failure e) now job); pure 0

  -- The launch of one due search that the quota lets through.
  unfoldable pub launch : Draw → RecurringSearch → Port S ℕ
  launch draw r = do
    urls ← jobs.recent_urls_for_recurring r.id seen_urls_limit
    created ← from_result (
        convert (λ e. port_error (job_error_text e)) (new draw.id draw.created r.user_id r.keyword))
    let job = with_recurring r.id (with_mode r.mode created)
    jobs.insert job
    sent ← attempt (dispatcher.dispatch job urls)
    dispatched draw.failed job sent

  -- One turn of the loop.
  unfoldable pub run_one : Time → Draw → RecurringSearch → Port S ℕ
  unfolding launch
  run_one now draw r = do
    used ← jobs.count_created_since r.user_id (now - hours 24)
    launched ← (if leb daily_quota used then pure 0 else launch draw r)
    recurring.mark_ran r.id now
    pure launched

  -- The loop, at what each of its turns draws.
  unfoldable pub run_all : Time → (ℕ → Draw) → ℕ → List RecurringSearch → Port S ℕ
  run_all now draws i [] s = (ok 0, s)
  run_all now draws i (r ∷ rest) s =
      (do
        launched ← run_one now (draws i) r
        more ← run_all now draws (suc i) rest
        pure (launched + more))
        s

  unfoldable pub execute : Time → (ℕ → Draw) → Port S ℕ
  execute now draws = do due ← recurring.list_due now; run_all now draws 0 due
