-- ===== src/Application/RunDueSearches/Tick.antt =====
-- A scheduler tick keeps the daily quota, over the in-memory stack and any agent.
use ai_agent_boilerplate.Prelude.{
  ℕ, suc, ◌-◌, ◌≤◌, max, ◌≡◌, inl, inr, false, List, [], ◌∷◌, arith, leb, ==-refl, Bool-cases,
  length, filter,
}
use ai_agent_boilerplate.Text.{Text}
use ai_agent_boilerplate.Exec.{Result, Result-cases}
use ai_agent_boilerplate.Map
use ai_agent_boilerplate.Map.{values}
use ai_agent_boilerplate.Map.Laws.{get-insert}
use ai_agent_boilerplate.Sort.{sort_by}
use ai_agent_boilerplate.Domain.{Uuid, Time, hours}
use ai_agent_boilerplate.Domain.Job.{JobError, ResearchJob, new, with_mode, with_recurring}
use ai_agent_boilerplate.Domain.Job.Lifecycle.{IsNew, new-IsNew}
use ai_agent_boilerplate.Domain.Recurring.{RecurringSearch, is_due}
use ai_agent_boilerplate.Ports.{Port, PortError}
use ai_agent_boilerplate.InMemory.Jobs
use ai_agent_boilerplate.InMemory.Jobs.{
  created_since, count_created_since, recent_urls_for_recurring,
}
use ai_agent_boilerplate.InMemory.Searches
use ai_agent_boilerplate.InMemory.Jobs.{gather_runs, newest_job_first, is_run_of}
use ai_agent_boilerplate.InMemory.Jobs.Counting.{
  count_where, count_where_lem, failed_counts, insert_within_quota,
}
use ai_agent_boilerplate.InMemory.World.{World, job_repository, search_repository, dispatcher}
use ai_agent_boilerplate.Application.{Draw, dispatch_failure}
use ai_agent_boilerplate.Application.LaunchSearch.Quota.{used}
use ai_agent_boilerplate.Application.RunDueSearches.{
  seen_urls_limit, launch, run_one, run_all, execute,
}

-- The job that a turn makes of the one that `new` returns.
abbrev pub for_search : RecurringSearch → ResearchJob → ResearchJob
for_search r job = with_recurring r.id (with_mode r.mode job)

-- The URLs that earlier runs of a search reported.
abbrev pub seen : {X : Type 0} → RecurringSearch → World X → List Text
seen r w =
    gather_runs seen_urls_limit w.jobs.results
      (sort_by newest_job_first (filter (is_run_of r.id) (values w.jobs.jobs))) []

module _ {X : Type 0} (add_f64 : ℕ → ℕ → ℕ) (send : ResearchJob → List Text → Port X Unit)
    (daily_quota : ℕ) (job_error_text : JobError → Text) (now : Time) where
  unfoldable pub turn : Draw → RecurringSearch → World X → Result PortError ℕ × World X
  turn =
      run_one search_repository (job_repository add_f64) (dispatcher send) daily_quota
        job_error_text now

  unfoldable pub turns :
      (ℕ → Draw) → ℕ → List RecurringSearch → World X → Result PortError ℕ × World X
  turns =
      run_all search_repository (job_repository add_f64) (dispatcher send) daily_quota
        job_error_text now

  unfoldable pub tick : (ℕ → Draw) → World X → Result PortError ℕ × World X
  tick =
      execute search_repository (job_repository add_f64) (dispatcher send) daily_quota
        job_error_text now

  new_within :
      (u : Uuid) (draw : Draw) (r : RecurringSearch) (job : ResearchJob) (w : World X)
      → IsNew draw.id r.user_id draw.created job
      → leb daily_quota
          (length (filter (created_since r.user_id (now - hours 24)) (values w.jobs.jobs)))
        ≡ false
      → count_where
          (created_since u (now - hours 24))
          (Map.insert job.id (for_search r job) w.jobs.jobs)
        ≤ max daily_quota (count_where (created_since u (now - hours 24)) w.jobs.jobs)
  unfolding with_mode with_recurring
  new_within u draw r job w j left =
      insert_within_quota daily_quota u r.user_id (now - hours 24) (for_search r job) w.jobs.jobs
        j.user_is
        (ground (arith, count_where_lem (created_since r.user_id (now - hours 24)) w.jobs.jobs))

  turn_quota :
      (u : Uuid) (draw : Draw) (r : RecurringSearch) (w : World X)
      → used u (now - hours 24) (turn draw r w).1 ≤ max daily_quota (used u (now - hours 24) w)
  unfolding turn run_one launch count_created_since Jobs.insert Jobs.update with_mode with_recurring
      Searches.mark_ran recent_urls_for_recurring
  turn_quota u draw r w =
      elim (Bool-cases (
        leb daily_quota
          (length (filter (created_since r.user_id (now - hours 24)) (values w.jobs.jobs))))) [
            | inl full ↦ rw full (omega arith)
            | inr left ↦ elim (Result-cases (new draw.id draw.created r.user_id r.keyword)) [
              | inr (e, bad) ↦ rw (left, bad) (omega arith)
              | inl (job, good) ↦
                  let j : IsNew draw.id r.user_id draw.created job =
                    new-IsNew draw.id draw.created r.user_id r.keyword good in
                  elim (Result-cases (send (for_search r job) (seen r w) w.outside).0) [
                    | inl (_, sent) ↦ rw (left, good, sent) (new_within u draw r job w j left)
                    | inr (e, lost) ↦
                        rw (left, good, lost)
                          (rw
                            (failed_counts u (now - hours 24) (dispatch_failure e) draw.failed
                              (for_search r job) (Map.insert job.id (for_search r job) w.jobs.jobs)
                              (unfold with_mode in
                                unfold with_recurring in simp (get-insert, ==-refl)))
                            (new_within u draw r job w j left))
                  ]
            ]
          ]

  turns_quota :
      (u : Uuid) (draws : ℕ → Draw) (i : ℕ) (due : List RecurringSearch) (w : World X)
      → used u (now - hours 24) (turns draws i due w).1
        ≤ max daily_quota (used u (now - hours 24) w)
  unfolding turns run_all turn
  turns_quota u draws i [] w = omega arith
  turns_quota u draws i (r ∷ due) w = elim (Result-cases (turn (draws i) r w).0) [
    | inl (n, good) ↦
        rw good (elim (Result-cases (turns draws (suc i) due (turn (draws i) r w).1).0) [
          | inl (k, more) ↦ rw more (
              ground (
                arith,
                turn_quota u (draws i) r w,
                turns_quota u draws (suc i) due (turn (draws i) r w).1,
              ))
          | inr (e, bad) ↦ rw bad (
              ground (
                arith,
                turn_quota u (draws i) r w,
                turns_quota u draws (suc i) due (turn (draws i) r w).1,
              ))
        ])
    | inr (e, bad) ↦ rw bad (turn_quota u (draws i) r w)
  ]

  -- A scheduler tick takes no user past the daily quota: in the window that it counts, no user
  -- has more jobs afterwards than the larger of the quota and what they had, however many of
  -- their searches are due and whatever the dispatches answer, also where the tick stops at an
  -- error.
  pub tick_quota :
      (u : Uuid) (draws : ℕ → Draw) (w : World X)
      → used u (now - hours 24) (tick draws w).1 ≤ max daily_quota (used u (now - hours 24) w)
  unfolding tick execute Searches.list_due turns
  tick_quota u draws w = turns_quota u draws 0 (filter (is_due now) (values w.searches)) w
