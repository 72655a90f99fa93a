-- ===== src/Application/LaunchSearch/Quota.antt =====
-- The daily quota (ADR-017).
use ai_agent_boilerplate.Prelude.{
  ℕ, ◌-◌, ◌≤◌, max, ◌≡◌, inl, inr, false, List, [], arith, leb, ==-refl, Bool-cases, length, filter,
}
use ai_agent_boilerplate.Text.{Text}
use ai_agent_boilerplate.Exec.{Result-cases}
use ai_agent_boilerplate.Map.{values, insert}
use ai_agent_boilerplate.Map.Laws.{get-insert}
use ai_agent_boilerplate.Domain.{Uuid, Time, hours}
use ai_agent_boilerplate.Domain.Job.{JobMode, ResearchJob, new, with_mode}
use ai_agent_boilerplate.Domain.Job.Lifecycle.{IsNew, new-IsNew}
use ai_agent_boilerplate.Ports.{Port}
use ai_agent_boilerplate.InMemory.Jobs
use ai_agent_boilerplate.InMemory.Jobs.{created_since, count_created_since}
use ai_agent_boilerplate.InMemory.Jobs.Counting.{
  count_where, count_where_lem, failed_counts, insert_within_quota,
}
use ai_agent_boilerplate.InMemory.World.{World}
use ai_agent_boilerplate.Application.{Draw, dispatch_failure}
use ai_agent_boilerplate.Application.LaunchSearch.{execute}
use ai_agent_boilerplate.Application.LaunchSearch.Outcomes.{launch}

-- How many jobs of a user the store holds that were created since `since`.
abbrev pub used : {X : Type 0} → Uuid → Time → World X → ℕ
used user_id since w = count_where (created_since user_id since) w.jobs.jobs

module _ {X : Type 0} (add_f64 : ℕ → ℕ → ℕ) (send : ResearchJob → List Text → Port X Unit)
    (daily_quota : ℕ) (clock : Time) (draw : Draw) (user_id : Uuid) (keyword : Text)
    (mode : JobMode) where
  -- The new job, inserted where the count left room.
  new_within :
      (u : Uuid) (job : ResearchJob) (w : World X)
      → IsNew draw.id user_id draw.created job
      → leb daily_quota
          (length (filter (created_since user_id (clock - hours 24)) (values w.jobs.jobs)))
        ≡ false
      → count_where
          (created_since u (clock - hours 24))
          (insert job.id (with_mode mode job) w.jobs.jobs)
        ≤ max daily_quota (count_where (created_since u (clock - hours 24)) w.jobs.jobs)
  unfolding with_mode
  new_within u job w j left =
      insert_within_quota daily_quota u user_id (clock - hours 24) (with_mode mode job) w.jobs.jobs
        j.user_is
        (ground (arith, count_where_lem (created_since user_id (clock - hours 24)) w.jobs.jobs))

  -- A launch never takes a user past the quota: in the window that it counts, no user has more
  -- jobs afterwards than the larger of the quota and what they had, whether the launch is
  -- dispatched, fails or is refused.
  pub launch_quota :
      (u : Uuid) (w : World X)
      → let since = clock - hours 24 in
        used u since (launch add_f64 send daily_quota clock draw user_id keyword mode w).1
        ≤ max daily_quota (used u since w)
  unfolding launch execute count_created_since Jobs.insert Jobs.update with_mode
  launch_quota u w =
      elim (Bool-cases (
        leb daily_quota
          (length (filter (created_since user_id (clock - hours 24)) (values w.jobs.jobs))))) [
            | inl full ↦ rw full (omega arith)
            | inr left ↦ elim (Result-cases (new draw.id draw.created user_id keyword)) [
              | inr (e, bad) ↦ rw (left, bad) (omega arith)
              | inl (job, good) ↦ elim (Result-cases (send (with_mode mode job) [] w.outside).0) [
                | inl (_, sent) ↦
                    rw (left, good, sent)
                      (new_within u job w (new-IsNew draw.id draw.created user_id keyword good)
                        left)
                | inr (e, lost) ↦
                    rw (left, good, lost)
                      (rw
                        (failed_counts u (clock - hours 24) (dispatch_failure e) draw.failed
                          (with_mode mode job) (insert job.id (with_mode mode job) w.jobs.jobs)
                          (unfold with_mode in simp (get-insert, ==-refl)))
                        (new_within u job w (new-IsNew draw.id draw.created user_id keyword good)
                          left))
              ]
            ]
          ]
