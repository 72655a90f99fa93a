-- ===== src/Application/LaunchSearch/Outcomes.antt =====
-- Every way in which a launch can end, over the in-memory stack and any agent.
use ai_agent_boilerplate.Prelude.{
  ℕ, ◌-◌, ◌≡◌, refl, inl, inr, some, List, [], arith, leb, ==-refl, Bool-cases, length, filter,
}
use ai_agent_boilerplate.Text.{Text}
use ai_agent_boilerplate.Exec.{Result, ok, err, Result-cases}
use ai_agent_boilerplate.Map
use ai_agent_boilerplate.Map.{get, values}
use ai_agent_boilerplate.Map.Laws.{get-insert}
use ai_agent_boilerplate.Domain.{Uuid, Time, hours}
use ai_agent_boilerplate.Domain.Job.{JobMode, pending, failed, ResearchJob, new, with_mode, fail}
use ai_agent_boilerplate.Domain.Job.Lifecycle.{IsNew, new-IsNew}
use ai_agent_boilerplate.Ports.{Port, PortError}
use ai_agent_boilerplate.InMemory.Jobs
use ai_agent_boilerplate.InMemory.Jobs.{created_since, count_created_since, keep_usage}
use ai_agent_boilerplate.InMemory.World.{World, job_repository, dispatcher}
use ai_agent_boilerplate.Application.{Draw, dispatch_failure}
use ai_agent_boilerplate.Application.LaunchSearch.{
  LaunchError, invalid_job, quota_exceeded, dispatch_failed, infrastructure, execute,
}

module _ {X : Type 0} (add_f64 : ℕ → ℕ → ℕ) (send : ResearchJob → List Text → Port X Unit)
    (daily_quota : ℕ) (clock : Time) (draw : Draw) (user_id : Uuid) (keyword : Text)
    (mode : JobMode) where
  unfoldable pub launch : World X → Result LaunchError ResearchJob × World X
  launch =
      execute (job_repository add_f64) (dispatcher send) daily_quota clock draw user_id keyword mode

  -- What a launch from `w` leaves, for each of its results.
  abbrev pub LaunchOutcome : World X → Result LaunchError ResearchJob → World X → Type 0
  LaunchOutcome w (ok job) w' =
      (get job.id w'.jobs.jobs ≡ some job)
      × (job.id ≡ draw.id)
      × (job.user_id ≡ user_id)
      × (job.status ≡ pending)
      × (job.mode ≡ mode)
  LaunchOutcome w (err (quota_exceeded n)) w' = (w' ≡ w) × (n ≡ daily_quota)
  LaunchOutcome w (err (invalid_job e)) w' =
      (w' ≡ w) × (new draw.id draw.created user_id keyword ≡ err e)
  LaunchOutcome w (err dispatch_failed) w' =
      (job : ResearchJob) × (e : PortError) × (get draw.id w'.jobs.jobs ≡ some job)
      × (job.status ≡ failed)
      × (job.error ≡ some (dispatch_failure e))
      × (job.user_id ≡ user_id)
  LaunchOutcome w (err (infrastructure e)) w' = ⊥

  failed_stored :
      (job : ResearchJob) (e : PortError) (w : World X)
      → IsNew draw.id user_id draw.created job
      → let lost = fail (dispatch_failure e) draw.failed (with_mode mode job) in
        let stored = Map.insert job.id (with_mode mode job) w.jobs.jobs in
        get draw.id (Map.insert lost.id (keep_usage lost (get lost.id stored)) stored) ≡ some lost
  unfolding fail with_mode
  failed_stored job e w j = simp (j.is_pending_now, get-insert, ==-refl, j.id_is)

  -- A launch ends in one of four ways: a success stores the returned job, pending, of the user
  -- and in the mode asked for; the quota and an invalid keyword are refused with nothing
  -- changed; a failed dispatch leaves a job of the user that is stored as failed by it.
  pub launch_outcome : (w : World X) → LaunchOutcome w (launch w).0 (launch w).1
  unfolding launch execute count_created_since Jobs.insert Jobs.update with_mode fail
  launch_outcome w =
      elim (Bool-cases (
        leb daily_quota
          (length (filter (created_since user_id (clock - hours 24)) (values w.jobs.jobs))))) [
            | inl full ↦ rw full (refl, refl)
            | inr left ↦ elim (Result-cases (new draw.id draw.created user_id keyword)) [
              | inr (e, bad) ↦ rw (left, bad) (refl, bad)
              | inl (job, good) ↦
                  let j : IsNew draw.id user_id draw.created job =
                    new-IsNew draw.id draw.created user_id keyword good in
                  elim (Result-cases (send (with_mode mode job) [] w.outside).0) [
                    | inl (_, sent) ↦
                        rw (left, good, sent)
                          (
                            ground
                                (arith, get-insert job.id job.id (with_mode mode job) w.jobs.jobs),
                            j.id_is,
                            j.user_is,
                            j.is_pending_now,
                            refl,
                          )
                    | inr (e, lost) ↦
                        rw (left, good, lost)
                          (
                            fail (dispatch_failure e) draw.failed (with_mode mode job),
                            e,
                            failed_stored job e w j,
                            ground (arith, j),
                            ground (arith, j),
                            ground (arith, j),
                          )
                  ]
            ]
          ]
