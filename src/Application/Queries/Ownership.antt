-- ===== src/Application/Queries/Ownership.antt =====
-- Reads are scoped to their owner and change nothing.
use mathlib.Core.List.{Perm}
use ai_agent_boilerplate.Prelude.{
  ℕ, ◌≡◌, refl, inl, inr, Option, none, some, List, ◌==◌, Bool-cases, Option-cases,
}
use ai_agent_boilerplate.Exec.{ok}
use ai_agent_boilerplate.Map.{get}
use ai_agent_boilerplate.Domain.{Uuid}
use ai_agent_boilerplate.Domain.Job.{ResearchJob, AgentStep}
use ai_agent_boilerplate.Domain.SearchResult.{SearchResult, sort_by_publication_date}
use ai_agent_boilerplate.Domain.SearchResult.Timeline.{IsTimeline, timeline_lem}
use ai_agent_boilerplate.InMemory.Jobs
use ai_agent_boilerplate.InMemory.Jobs.{or_empty}
use ai_agent_boilerplate.InMemory.World.{World, job_repository}
use ai_agent_boilerplate.Application.AnswerClarification.{owned_by}
use ai_agent_boilerplate.Application.Queries
use ai_agent_boilerplate.Application.Queries.{Detail}

-- What a read returns for the job that the user may see, if there is one: the job, the stored
-- results as a timeline, and the stored journal.
abbrev pub Shows : Option ResearchJob → List SearchResult → List AgentStep → Option Detail → Type 0
Shows none results steps none = Unit
Shows none results steps (some d) = ⊥
Shows (some job) results steps none = ⊥
Shows (some job) results steps (some d) =
    (d.0 ≡ job) × Perm d.1 results × IsTimeline d.1 × (d.2 ≡ steps)

module _ {X : Type 0} (add_f64 : ℕ → ℕ → ℕ) where
  -- Reading a job's detail succeeds and changes nothing, and returns a detail exactly for the
  -- user's own job, with its results as a timeline; an unknown job and another user's look the
  -- same.
  pub get_owned :
      (user_id job_id : Uuid) (w : World X)
      → (shown : Option Detail) × (Queries.get (job_repository add_f64) user_id job_id w
          ≡ (ok shown, w))
        × Shows
            (owned_by user_id (get job_id w.jobs.jobs))
            (or_empty (get job_id w.jobs.results))
            (or_empty (get job_id w.jobs.steps))
            shown
  unfolding Queries.get Jobs.find Jobs.results_for Jobs.steps_for
  get_owned user_id job_id w =
      let results = or_empty (get job_id w.jobs.results) in
      let steps = or_empty (get job_id w.jobs.steps) in
      let sorted = timeline_lem results in
      elim (Option-cases (get job_id w.jobs.jobs)) [
        | inl missing ↦ rw missing (none, refl, tt)
        | inr (job, found) ↦ elim (Bool-cases (job.user_id == user_id)) [
          | inl own ↦
              rw (found, own)
                (
                  some (job, sort_by_publication_date results, steps),
                  refl,
                  (refl, sorted.0, sorted.1, refl),
                )
          | inr foreign ↦ rw (found, foreign) (none, refl, tt)
        ]
      ]
