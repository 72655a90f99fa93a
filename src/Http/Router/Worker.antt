-- ===== src/Http/Router/Worker.antt =====
-- The worker's callbacks, as requests to the router over the in-memory stack.
use ai_agent_boilerplate.Prelude.{
  ℕ, ◌≡◌, refl, inl, inr, true, false, none, some, List, [], ◌∷◌, map, ◌==◌, if◌then◌else◌,
  Bool-cases,
}
use ai_agent_boilerplate.Text.{Text}
use ai_agent_boilerplate.Map.{get}
use ai_agent_boilerplate.Domain.{Uuid}
use ai_agent_boilerplate.Domain.Job.{ResearchJob}
use ai_agent_boilerplate.Domain.Job.Lifecycle.{apply_all}
use ai_agent_boilerplate.Domain.Channel.{NotificationChannel}
use ai_agent_boilerplate.Ports.{Port, Digest}
use ai_agent_boilerplate.InMemory.World.{
  World, job_repository, search_repository, channel_repository, digest_sender, channel_notifier,
}
use ai_agent_boilerplate.Application.IngestResults.Callbacks.{
  Callback, started_now, delivered, gave_up, asks, effect, receive, receive_all, callbacks_refine,
}
use ai_agent_boilerplate.Http.Headers.{Headers, has_internal_token}
use ai_agent_boilerplate.Http.State.{with_internal_token}
use ai_agent_boilerplate.Http.Internal
use ai_agent_boilerplate.Http.Router.{Router, Request, serve, internal, job_callback}

abbrev pub posted : Callback → Internal.Callback
posted started_now = Internal.started
posted (delivered now results) = Internal.results now results
posted (gave_up now error) = Internal.failure now error
posted (asks question) = Internal.question question

-- The callbacks whose request carries the token.
abbrev pub admitted : List ℕ → List (Headers × Callback) → List Callback
admitted token [] = []
admitted token ((headers, c) ∷ posts) =
    let rest = admitted token posts in if has_internal_token token headers then c ∷ rest else rest

module _ {X : Type 0} (add_f64 : ℕ → ℕ → ℕ) (send : Text → Digest → Port X Unit)
    (notify : NotificationChannel → Digest → Port X Unit) (base : Router (World X)) where
  -- The router with the in-memory job, search and channel repositories.
  abbrev pub in_memory : Router (World X)
  in_memory = record base {
    state = record base.state {
      jobs = job_repository add_f64;
      recurring = search_repository;
      digests = digest_sender send;
      channels = channel_repository;
      notifier = channel_notifier notify;
    };
  }

  abbrev pub post : Uuid → Headers → Callback → Request
  post id headers c = record {
    headers = headers;
    peer = none;
    route = internal (job_callback id (posted c));
  }

  -- One request after the other.
  unfoldable pub post_all : Uuid → List (Headers × Callback) → World X → World X
  post_all id [] w = w
  post_all id ((headers, c) ∷ posts) w = post_all id posts (serve in_memory (post id headers c) w).1

  serve_admitted :
      (id : Uuid) (headers : Headers) (c : Callback) (w : World X)
      → has_internal_token base.state.internal_token headers ≡ true
      → (serve in_memory (post id headers c) w).1
        ≡ (receive add_f64 send notify base.state.library.job_error_text c id w).1
  unfolding serve Internal.internal with_internal_token receive
  serve_admitted id headers started_now w h = rw h
  serve_admitted id headers (delivered now results) w h = rw h
  serve_admitted id headers (gave_up now error) w h = rw h
  serve_admitted id headers (asks question) w h = rw h

  serve_rejected :
      (id : Uuid) (headers : Headers) (c : Callback) (w : World X)
      → has_internal_token base.state.internal_token headers ≡ false
      → (serve in_memory (post id headers c) w).1 ≡ w
  unfolding serve Internal.internal with_internal_token
  serve_rejected id headers c w h = rw h

  post_all_lem :
      (id : Uuid) (posts : List (Headers × Callback)) (w : World X)
      → post_all id posts w
        ≡ receive_all add_f64 send notify base.state.library.job_error_text
            (admitted base.state.internal_token posts)
            id
            w
  unfolding post_all receive_all
  post_all_lem id [] w = refl
  post_all_lem id ((headers, c) ∷ posts) w =
      elim (Bool-cases (has_internal_token base.state.internal_token headers)) [
        | inl carries ↦
            rw (carries, serve_admitted id headers c w carries) (post_all_lem id posts _)
        | inr lacks ↦ rw (lacks, serve_rejected id headers c w lacks) (post_all_lem id posts w)
      ]

  -- Of the requests that report the start, the results, the failure or a question of a job that
  -- is stored under its identifier, in any number and order, exactly those with the internal
  -- token take effect: the stored job is what the domain's methods make of it in that order, and
  -- every other job is untouched, whatever the digest senders and notifiers answer.
  pub posts_refine :
      (posts : List (Headers × Callback)) (id : Uuid) (job : ResearchJob) (other : Uuid)
      (w : World X)
      → get id w.jobs.jobs ≡ some job
      → job.id ≡ id
      → get other (post_all id posts w).jobs.jobs ≡ (
          if id == other
          then some (apply_all (map effect (admitted base.state.internal_token posts)) job)
          else get other w.jobs.jobs)
  posts_refine posts id job other w h e = rw (post_all_lem id posts w) (
      callbacks_refine add_f64 send notify base.state.library.job_error_text
        (admitted base.state.internal_token posts) id job other w h e)
