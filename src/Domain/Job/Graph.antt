-- ===== src/Domain/Job/Graph.antt =====
-- The transition diagram of a job's status.
use ai_agent_boilerplate.Prelude.{◌≡◌, refl, true, none, List, [], ◌∷◌, arith}
use ai_agent_boilerplate.Domain.Job.{
  JobStatus, pending, running, awaiting_input, completed, failed, ResearchJob, is_finished,
}
use ai_agent_boilerplate.Domain.Job.Lifecycle.{JobEvent, apply, apply_all}

infix 40 ◌⟶◌ ◌⟶*◌
-- `stay` is a call that does nothing; `complete` always wins; a failure never clobbers a
-- completed job.
pub data ◌⟶◌ : JobStatus → JobStatus → Type 0 where
  stay : {s : JobStatus} → s ⟶ s
  pick_up : pending ⟶ running
  ask_early : pending ⟶ awaiting_input
  ask : running ⟶ awaiting_input
  requeue : awaiting_input ⟶ pending
  finish : {s : JobStatus} → s ⟶ completed
  give_up_pending : pending ⟶ failed
  give_up_running : running ⟶ failed
  give_up_waiting : awaiting_input ⟶ failed

pub data ◌⟶*◌ : JobStatus → JobStatus → Type 0 where
  here : {s : JobStatus} → s ⟶* s
  then : {s t u : JobStatus} → s ⟶ t → t ⟶* u → s ⟶* u

ruleset edges = (
  stay, pick_up, ask_early, ask, requeue, finish, give_up_pending, give_up_running, give_up_waiting,
)

-- Every call moves the status along an edge of the diagram.
pub apply-⟶ : (e : JobEvent) (j : ResearchJob) → j.status ⟶ (apply e j).status
unfolding apply
apply-⟶ e j = grind (arith, edges)

-- Every sequence of calls moves the status along a path of the diagram.
pub apply_all-⟶* : (es : List JobEvent) (j : ResearchJob) → j.status ⟶* (apply_all es j).status
unfolding apply_all
apply_all-⟶* [] j = here
apply_all-⟶* (e ∷ es) j = then (apply-⟶ e j) (apply_all-⟶* es (apply e j))

-- What a late call leaves alone on a completed job.
record StaysCompleted (i j : ResearchJob) : Type 0 where
  status : j.status ≡ completed
  error : j.error ≡ none
  question : j.question ≡ i.question
  answer : j.answer ≡ i.answer

completed_step :
    (e : JobEvent) (i j : ResearchJob) → StaysCompleted i j → StaysCompleted i (apply e j)
unfolding apply
completed_step e i j h = ground arith

completed_steps :
    (es : List JobEvent) (i j : ResearchJob)
    → StaysCompleted i j
    → StaysCompleted i (apply_all es j)
unfolding apply_all
completed_steps [] i j h = h
completed_steps (e ∷ es) i j h = completed_steps es i (apply e j) (completed_step e i j h)

-- A completed job stays completed, with no error, whatever calls follow: no late start, failure,
-- question or answer reopens it, and its question and answer stay as they are.
pub completed_absorbs :
    (es : List JobEvent) (j : ResearchJob)
    → j.status ≡ completed
    → j.error ≡ none
    → ((apply_all es j).status ≡ completed)
      × ((apply_all es j).error ≡ none)
      × ((apply_all es j).question ≡ j.question)
      × ((apply_all es j).answer ≡ j.answer)
completed_absorbs es j h k =
    let kept : StaysCompleted j (apply_all es j) =
      completed_steps es j j (record { status = h; error = k; question = refl; answer = refl }) in
    (kept.status, kept.error, kept.question, kept.answer)

finished_step :
    (e : JobEvent) (j : ResearchJob) → is_finished j ≡ true → is_finished (apply e j) ≡ true
unfolding apply is_finished
finished_step e j h = ground arith

-- A finished job stays finished, whatever calls follow.
pub finished_stays :
    (es : List JobEvent) (j : ResearchJob)
    → is_finished j ≡ true
    → is_finished (apply_all es j) ≡ true
unfolding apply_all
finished_stays [] j h = h
finished_stays (e ∷ es) j h = finished_stays es (apply e j) (finished_step e j h)
