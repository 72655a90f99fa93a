-- ===== src/Application/IngestResults/Callbacks.antt =====
-- The worker's callbacks over the in-memory stack drive the stored job as the domain's methods do,
-- whatever the digest senders and the notifiers answer.
use ai_agent_boilerplate.Prelude.{
  ℕ, ◌≡◌, refl, sym, ap, ◌∙◌, inl, inr, true, false, none, some, List, [], ◌∷◌, map, arith, ◌==◌,
  if◌then◌else◌, ==_iff, ==-refl, Bool-cases,
}
use ai_agent_boilerplate.Text.{Text, trim, is_empty}
use ai_agent_boilerplate.Exec.{Result, ok, err}
use ai_agent_boilerplate.Map
use ai_agent_boilerplate.Map.{get, Map}
use ai_agent_boilerplate.Domain.{Uuid, Time}
use ai_agent_boilerplate.Domain.Job
use ai_agent_boilerplate.Domain.Job.{JobError, empty_question, ResearchJob, request_input}
use ai_agent_boilerplate.Domain.Job.Lifecycle.{
  JobEvent, started, completed_at, failed_with, asked, apply, apply_all, apply_keeps,
}
use ai_agent_boilerplate.Domain.SearchResult.{SearchResult}
use ai_agent_boilerplate.Domain.Channel.{NotificationChannel}
use ai_agent_boilerplate.Ports.{Port, Digest}
use ai_agent_boilerplate.InMemory.Jobs
use ai_agent_boilerplate.InMemory.Jobs.Usage.{store_version}
use ai_agent_boilerplate.InMemory.Jobs.{keep_usage}
use ai_agent_boilerplate.InMemory.World.{
  World, job_repository, search_repository, channel_repository, digest_sender, channel_notifier,
}
use ai_agent_boilerplate.Application.IngestResults
use ai_agent_boilerplate.Application.IngestResults.{
  IngestError, job_not_found, start, complete, fail,
}
use ai_agent_boilerplate.Application.IngestResults.Digests.{digest_inside}

-- A lifecycle callback of the internal API.
pub data Callback : Type 0 where
  started_now : Callback
  delivered : Time → List SearchResult → Callback
  gave_up : Time → Text → Callback
  asks : Text → Callback

-- What the callback does to the job.
abbrev pub effect : Callback → JobEvent
effect started_now = started
effect (delivered now results) = completed_at now
effect (gave_up now error) = failed_with error now
effect (asks question) = asked question

asked_blank :
    (question : Text) (job : ResearchJob)
    → is_empty (trim question) ≡ true
    → request_input question job ≡ (err empty_question, job)
unfolding request_input
asked_blank question job h = ground arith

asked_clear :
    (question : Text) (job : ResearchJob)
    → is_empty (trim question) ≡ false
    → (request_input question job).0 ≡ ok tt
unfolding request_input
asked_clear question job h = ground arith

apply-asked :
    (question : Text) (job : ResearchJob)
    → apply (asked question) job ≡ (request_input question job).1
unfolding apply
apply-asked question job = refl

-- A read of `id` itself, or of another job.
read_same :
    (id other : Uuid) (job : ResearchJob) (m : Map ResearchJob)
    → get id m ≡ some job
    → get other m ≡ (if id == other then some job else get other m)
read_same id other job m h = ground (arith, ==_iff id other, ap (λ i. get i m) {x = id} {y = other})

module _ {X : Type 0} (add_f64 : ℕ → ℕ → ℕ) (send : Text → Digest → Port X Unit)
    (notify : NotificationChannel → Digest → Port X Unit) (job_error_text : JobError → Text) where
  -- The handler of a callback.
  unfoldable pub receive : Callback → Uuid → World X → Result IngestError Unit × World X
  receive started_now id =
      start (job_repository add_f64) search_repository (digest_sender send) channel_repository
        (channel_notifier notify) job_error_text id
  receive (delivered now results) id =
      complete (job_repository add_f64) search_repository (digest_sender send) channel_repository
        (channel_notifier notify) job_error_text now id results
  receive (gave_up now error) id =
      fail (job_repository add_f64) search_repository (digest_sender send) channel_repository
        (channel_notifier notify) job_error_text now id error
  receive (asks question) id =
      IngestResults.request_input (job_repository add_f64) search_repository (digest_sender send)
        channel_repository (channel_notifier notify) job_error_text id question

  -- A callback about an unknown job is refused and changes nothing.
  pub receive_unknown :
      (c : Callback) (id : Uuid) (w : World X)
      → get id w.jobs.jobs ≡ none
      → receive c id w ≡ (err job_not_found, w)
  unfolding receive start complete fail IngestResults.request_input Jobs.find
  receive_unknown started_now id w h = rw h
  receive_unknown (delivered now results) id w h = rw h
  receive_unknown (gave_up now error) id w h = rw h
  receive_unknown (asks question) id w h = rw h

  receive_asks :
      (question : Text) (id : Uuid) (job : ResearchJob) (other : Uuid) (w : World X)
      → get id w.jobs.jobs ≡ some job
      → job.id ≡ id
      → get other (receive (asks question) id w).1.jobs.jobs
        ≡ (if id == other then some (request_input question job).1 else get other w.jobs.jobs)
  unfolding receive IngestResults.request_input Jobs.find Jobs.update
  receive_asks question id job other w h e = elim (Bool-cases (is_empty (trim question))) [
    | inl blank ↦ rw (h, asked_blank question job blank) (read_same id other job w.jobs.jobs h)
    | inr clear ↦
        let k = apply_keeps (asked question) job in
        rw (h, asked_clear question job clear)
          (store_version id job (request_input question job).1 w.jobs.jobs other h
            (ap (λ (i : ResearchJob). i.id) (sym (apply-asked question job)) ∙ k.0 ∙ e)
            (ap (λ (i : ResearchJob). i.usage) (sym (apply-asked question job)) ∙ k.2))
  ]

  -- A callback about a stored job applies the domain's method to that job and touches no other.
  pub receive_known :
      (c : Callback) (id : Uuid) (job : ResearchJob) (other : Uuid) (w : World X)
      → get id w.jobs.jobs ≡ some job
      → job.id ≡ id
      → get other (receive c id w).1.jobs.jobs
        ≡ (if id == other then some (apply (effect c) job) else get other w.jobs.jobs)
  unfolding receive start complete fail IngestResults.request_input Jobs.find Jobs.update
      Jobs.store_results apply
  receive_known started_now id job other w h e =
      let k = apply_keeps started job in
      rw h (store_version id job (Job.start job) w.jobs.jobs other h (k.0 ∙ e) k.2)
  receive_known (delivered now results) id job other w h e =
      let k = apply_keeps (completed_at now) job in
      let done = Job.complete now job in
      let v = record w {
        jobs = record {
          jobs = Map.insert done.id (keep_usage done (get done.id w.jobs.jobs)) w.jobs.jobs;
          results = Map.insert id results w.jobs.results;
          steps = w.jobs.steps;
        };
      } in
      rw h (
        ap (λ (u : World X). get other u.jobs.jobs)
          (digest_inside add_f64 send notify job_error_text done results v).1
        ∙ store_version id job done w.jobs.jobs other h (k.0 ∙ e) k.2)
  receive_known (gave_up now error) id job other w h e =
      let k = apply_keeps (failed_with error now) job in
      rw h (store_version id job (Job.fail error now job) w.jobs.jobs other h (k.0 ∙ e) k.2)
  receive_known (asks question) id job other w h e =
      receive_asks question id job other w h e ∙ rw (apply-asked question job)

  -- The callbacks about one job, in the order in which they arrive.
  unfoldable pub receive_all : List Callback → Uuid → World X → World X
  receive_all [] id w = w
  receive_all (c ∷ cs) id w = receive_all cs id (receive c id w).1

  -- However often and in whatever order the worker calls back about a job that is stored under
  -- its identifier, the stored job is what the domain's methods make of it in that order, and
  -- every other job is untouched, whatever the digest senders and notifiers answer.
  pub callbacks_refine :
      (cs : List Callback) (id : Uuid) (job : ResearchJob) (other : Uuid) (w : World X)
      → get id w.jobs.jobs ≡ some job
      → job.id ≡ id
      → get other (receive_all cs id w).jobs.jobs
        ≡ (if id == other then some (apply_all (map effect cs) job) else get other w.jobs.jobs)
  unfolding receive_all apply_all
  callbacks_refine [] id job other w h e = read_same id other job w.jobs.jobs h
  callbacks_refine (c ∷ cs) id job other w h e =
      let w' = (receive c id w).1 in
      let job' = apply (effect c) job in
      callbacks_refine cs id job' other w' (receive_known c id job id w h e ∙ rw (==-refl id))
        ((apply_keeps (effect c) job).0 ∙ e)
      ∙ ground (arith, receive_known c id job other w h e)
