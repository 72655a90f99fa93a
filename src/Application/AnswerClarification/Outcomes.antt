-- ===== src/Application/AnswerClarification/Outcomes.antt =====
-- Every way in which an answer can end, over the in-memory stack and any agent.
use ai_agent_boilerplate.Prelude.{
  ℕ, ◌≡◌, refl, ◌∙◌, ◌⊎◌, inl, inr, Option, none, some, List, [], arith, ◌==◌, ==_iff, ==-refl,
  Bool-cases, Option-cases, filter,
}
use ai_agent_boilerplate.Text.{Text, trim}
use ai_agent_boilerplate.Exec.{Result, ok, err, Result-cases}
use ai_agent_boilerplate.Map
use ai_agent_boilerplate.Map.{Map, get, values, remove}
use ai_agent_boilerplate.Map.Laws.{get-remove, AllEntries-get}
use ai_agent_boilerplate.Map.Keyed.{IsKeyed}
use ai_agent_boilerplate.Domain.{Uuid, Time}
use ai_agent_boilerplate.Domain.Job.{
  JobError, AgentStep, pending, ResearchJob, provide_answer, fail,
}
use ai_agent_boilerplate.Domain.Job.Lifecycle.{fail_keeps}
use ai_agent_boilerplate.Ports.{Port, PortError}
use ai_agent_boilerplate.InMemory.Jobs
use ai_agent_boilerplate.InMemory.Jobs.{keep_usage, recent_urls_for_recurring}
use ai_agent_boilerplate.InMemory.Jobs.Usage.{store_version}
use ai_agent_boilerplate.InMemory.Jobs.{gather_runs, newest_job_first, is_run_of}
use ai_agent_boilerplate.Sort.{sort_by}
use ai_agent_boilerplate.InMemory.World.{World, job_repository, dispatcher}
use ai_agent_boilerplate.Application.{dispatch_failure}
use ai_agent_boilerplate.Application.AnswerClarification.{
  AnswerError, not_found, invalid_answer, dispatch_failed, infrastructure, execute, owned_by,
  seen_urls,
}

-- The answered job: pending again, with the trimmed answer, and otherwise the job that waited.
abbrev pub with_answer : Text → ResearchJob → ResearchJob
with_answer answer job = record job { answer = some (trim answer); status = pending }

-- An answer is taken, or refused with the job as it was.
answer_cases :
    (answer : Text) (job : ResearchJob)
    → (provide_answer answer job ≡ (ok tt, with_answer answer job))
      ⊎ ((e : JobError) × (provide_answer answer job ≡ (err e, job)))
unfolding provide_answer
answer_cases answer job = elim (Result-cases (provide_answer answer job).0) [
  | inl (_, taken) ↦ inl (ground (arith, taken))
  | inr (e, refused) ↦ inr (e, ground (arith, refused))
]

module _ {X : Type 0} (add_f64 : ℕ → ℕ → ℕ) (send : ResearchJob → List Text → Port X Unit)
    (now : Time) (user_id job_id : Uuid) (answer : Text) where
  unfoldable pub reply : World X → Result AnswerError ResearchJob × World X
  reply = execute (job_repository add_f64) (dispatcher send) now user_id job_id answer

  -- The job that the user may answer is `job`.
  abbrev pub Owns : World X → ResearchJob → Type 0
  Owns w job = (get job_id w.jobs.jobs ≡ some job) × (job.user_id ≡ user_id)

  -- What an answer given in `w` leaves, for each of its results.
  abbrev pub ReplyOutcome : World X → Result AnswerError ResearchJob → World X → Type 0
  ReplyOutcome w (ok job) w' =
      (old : ResearchJob) × Owns w old
      × (provide_answer answer old ≡ (ok tt, job))
      × (job ≡ with_answer answer old)
      × (get job_id w'.jobs.jobs ≡ some job)
      × (get job_id w'.jobs.steps ≡ none)
  ReplyOutcome w (err not_found) w' = (w' ≡ w) × (owned_by user_id (get job_id w.jobs.jobs) ≡ none)
  ReplyOutcome w (err (invalid_answer e)) w' =
      (w' ≡ w) × ((old : ResearchJob) × Owns w old × (provide_answer answer old ≡ (err e, old)))
  ReplyOutcome w (err dispatch_failed) w' =
      (old : ResearchJob) × (e : PortError) × Owns w old
      × (get job_id w'.jobs.jobs ≡ some (fail (dispatch_failure e) now (with_answer answer old)))
      × (get job_id w'.jobs.steps ≡ none)
  ReplyOutcome w (err (infrastructure e)) w' = ⊥

  -- What the job's entry is after the update, and after a failed dispatch's update too.
  answer_stored :
      (old : ResearchJob) (m : Map ResearchJob)
      → get job_id m ≡ some old
      → old.id ≡ job_id
      → get job_id (Map.insert old.id (keep_usage (with_answer answer old) (get old.id m)) m)
        ≡ some (with_answer answer old)
  answer_stored old m h e =
      store_version job_id old (with_answer answer old) m job_id h e refl ∙ rw (==-refl job_id)

  failure_stored :
      (old : ResearchJob) (e : PortError) (m : Map ResearchJob)
      → get job_id m ≡ some old
      → old.id ≡ job_id
      → let lost = fail (dispatch_failure e) now (with_answer answer old) in
        let m' = Map.insert old.id (keep_usage (with_answer answer old) (get old.id m)) m in
        get job_id (Map.insert lost.id (keep_usage lost (get lost.id m')) m') ≡ some lost
  failure_stored old e m h i =
      let job = with_answer answer old in
      let k = fail_keeps (dispatch_failure e) now job in
      store_version job_id job (fail (dispatch_failure e) now job)
        (Map.insert old.id (keep_usage job (get old.id m)) m) job_id (answer_stored old m h i)
        (k.0 ∙ i) k.3
      ∙ rw (==-refl job_id)

  -- The URLs that earlier runs of the job's search reported.
  abbrev memory : Option Uuid → World X → List Text
  memory none w = []
  memory (some rs) w =
      gather_runs 200 w.jobs.results
        (sort_by newest_job_first (filter (is_run_of rs) (values w.jobs.jobs))) []

  remembered :
      (o : Option Uuid) (w : World X)
      → seen_urls (job_repository add_f64) (dispatcher send) o w ≡ (ok (memory o w), w)
  unfolding recent_urls_for_recurring
  remembered none w = refl
  remembered (some rs) w = refl

  abbrev urls : ResearchJob → World X → List Text
  urls old w = memory old.recurring_search_id (record w {
    jobs = record w.jobs {
      jobs =
          Map.insert old.id (keep_usage (with_answer answer old) (get old.id w.jobs.jobs))
            w.jobs.jobs;
      steps = remove job_id w.jobs.steps;
    };
  })

  steps_cleared : (m : Map (List AgentStep)) → get job_id (remove job_id m) ≡ none
  steps_cleared m = rw (get-remove, ==-refl) refl

  -- In a store whose jobs stand under their identifiers, an answer ends in one of four ways: to
  -- another user's or an unknown job it is not found, and an invalid one is refused with the
  -- reason, both with nothing changed; a valid one makes the job pending with the trimmed answer
  -- and clears its journal; if the dispatch fails the job is stored as failed by it.
  pub reply_outcome :
      (w : World X) → IsKeyed (λ j. j.id) w.jobs.jobs → ReplyOutcome w (reply w).0 (reply w).1
  unfolding reply execute Jobs.find Jobs.clear_steps Jobs.update recent_urls_for_recurring
  reply_outcome w k = elim (Option-cases (get job_id w.jobs.jobs)) [
    | inl missing ↦ rw missing (refl, rw missing refl)
    | inr (old, found) ↦ elim (Bool-cases (old.user_id == user_id)) [
      | inr foreign ↦ rw (found, foreign) (refl, rw found (rw foreign refl))
      | inl own ↦ elim (answer_cases answer old) [
        | inr (e, refused) ↦
            rw (found, own, refused) (refl, (old, (found, (==_iff _ _).0 own), refused))
        | inl taken ↦
            let owns : Owns w old = (found, (==_iff _ _).0 own) in
            let owns_id = AllEntries-get (λ i j. j.id ≡ i) job_id old w.jobs.jobs k found in
            elim (Result-cases (send (with_answer answer old) (urls old w) w.outside).0) [
              | inl (_, sent) ↦
                  rw (found, own, taken, remembered, sent)
                    (
                      old,
                      owns,
                      taken,
                      refl,
                      answer_stored old w.jobs.jobs found owns_id,
                      steps_cleared w.jobs.steps,
                    )
              | inr (e, lost) ↦
                  rw (found, own, taken, remembered, lost)
                    (
                      old,
                      e,
                      owns,
                      failure_stored old e w.jobs.jobs found owns_id,
                      steps_cleared w.jobs.steps,
                    )
            ]
      ]
    ]
  ]
