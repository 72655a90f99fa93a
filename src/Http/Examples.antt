-- ===== src/Http/Examples.antt =====
-- The theorems on the HTTP API, each at a concrete input.
use ai_agent_boilerplate.Prelude.{
  ℕ, ◌+◌, ◌≤◌, ◌≡◌, refl, ap, ◌↔◌, true, none, some, List, [], ◌∷◌, map, arith,
}
use ai_agent_boilerplate.Text.{Text, codes, text_eq, trim, is_whitespace}
use ai_agent_boilerplate.Map.{get, find_value}
use ai_agent_boilerplate.Domain.Job.{complete}
use ai_agent_boilerplate.Domain.Job.Lifecycle.{apply_all}
use ai_agent_boilerplate.Domain.RefreshToken
use ai_agent_boilerplate.Domain.SecurityEvent
use ai_agent_boilerplate.Domain.SecurityEvent.{login_failed}
use ai_agent_boilerplate.InMemory.Users
use ai_agent_boilerplate.InMemory.World.{World, job_repository}
use ai_agent_boilerplate.Application.Fixtures.{
  alice, noon, running_job, world, webhook_send, channel_send,
}
use ai_agent_boilerplate.Application.IngestResults.Callbacks.{
  Callback, started_now, gave_up, effect,
}
use ai_agent_boilerplate.Application.Queries
use ai_agent_boilerplate.Application.Queries.Ownership.{get_owned}
use ai_agent_boilerplate.Http.Headers.{
  split, Headers, header, constant_time_eq, read_refresh_cookie, client_ip, bearer_token,
  refresh_cookie,
}
use ai_agent_boilerplate.Http.Tokens.{constant_time_eq_lem}
use ai_agent_boilerplate.Http.Views.{JobDetailView, error_body}
use ai_agent_boilerplate.Http.State.{record_security_event}
use ai_agent_boilerplate.Http.Auth
use ai_agent_boilerplate.Http.Auth.Cookies.{read-refresh_cookie}
use ai_agent_boilerplate.Http.Auth.Login.{login_hides_accounts}
use ai_agent_boilerplate.Http.Internal
use ai_agent_boilerplate.Http.Router.{serve, api, internal, job_callback, list_searches}
use ai_agent_boilerplate.Http.Router.Guards.{no_token, no_user, internal_refused, api_refused}
use ai_agent_boilerplate.Http.Router.Worker.{admitted, post_all, posts_refine}
use ai_agent_boilerplate.Http.Sse.{StreamState, job_updates, pull}
use ai_agent_boilerplate.Http.Sse.Pulls.{settled, pull_settles}
use ai_agent_boilerplate.Http.Sse.Stream.{IsFeed, stream, stream-IsFeed}
use ai_agent_boilerplate.Http.Fixtures.{
  library, router, state, with_token, forged, ask, event, credentials,
}

constant_time_eq_lem_example :
    (constant_time_eq (codes "s3cret") (codes "guessed") ≡ true)
    ↔ (codes "s3cret" ≡ codes "guessed")
constant_time_eq_lem_example = constant_time_eq_lem (codes "s3cret") (codes "guessed")

abbrev posts : List (Headers × Callback)
posts = (forged, gave_up noon (codes "lost")) ∷ (with_token, started_now) ∷ []

posts_refine_example :
    get 10 (post_all (λ a b. a) webhook_send channel_send router 10 posts world).jobs.jobs
    ≡ some (apply_all (map effect (admitted (codes "s3cret") posts)) running_job)
unfolding get
posts_refine_example =
    posts_refine (λ a b. a) webhook_send channel_send router posts 10 running_job 10 world refl refl

internal_refused_example :
    serve router (ask forged (internal (job_callback 10 Internal.started))) world
    ≡ (no_token, world)
unfolding header text_eq
internal_refused_example =
    internal_refused router (ask forged (internal (job_callback 10 Internal.started)))
      (job_callback 10 Internal.started) world refl (λ e. ground arith)

api_refused_example : serve router (ask [] (api list_searches)) world ≡ (no_user, world)
unfolding bearer_token header
api_refused_example = api_refused router (ask [] (api list_searches)) list_searches world refl refl

abbrev draw : RefreshToken.Draw
draw = record { id = 60; plaintext = codes "p" }

login_hides_accounts_example :
    Auth.login state event 41 draw noon [] credentials world
    ≡ record_security_event state
        (SecurityEvent.new 50 7 login_failed none
          (client_ip library.to_str [])
          (trim (codes "nobody@example.org")))
        (error_body 401 (codes "invalid credentials"))
        world
unfolding Users.find_by_email find_value
login_hides_accounts_example =
    login_hides_accounts state event 41 draw noon [] credentials none world world world refl refl
      refl

abbrev cookies : Headers
cookies = (codes "cookie", codes "refresh_token=abc") ∷ []

read-refresh_cookie_example : read_refresh_cookie (λ b. some b) cookies ≡ some (codes "abc")
unfolding header text_eq refresh_cookie is_whitespace split
read-refresh_cookie_example =
    read-refresh_cookie (λ b. some b) cookies (codes "abc") 60 (codes "refresh_token=abc") refl refl
      refl refl

abbrev stream_state : StreamState
stream_state = record (job_updates alice 10) { max_lifetime = 5 }

abbrev json : JobDetailView → Text
json view = view.job.keyword

abbrev clock : World ℕ → ℕ
clock w = w.outside

abbrev doze : ℕ → World ℕ → World ℕ
doze wait w = record w { outside = w.outside + wait }

reads :
    (user_id job_id : ℕ) (w : World ℕ)
    → clock w ≤ clock (Queries.get (job_repository (λ a b. a)) user_id job_id w).1
reads user_id job_id w =
    omega (arith, ap (λ r. clock r.1) (get_owned (λ a b. a) user_id job_id w).1)

pull_settles_example :
    settled (pull (job_repository (λ a b. a)) json clock doze 6 stream_state world).0 ≡ true
pull_settles_example =
    pull_settles (job_repository (λ a b. a)) json clock doze reads (λ wait w. omega arith)
      stream_state (omega arith) (omega arith) 6 world (omega arith)

-- The agent completes the job between the pulls.
abbrev completed_meanwhile : ℕ → World ℕ → World ℕ
completed_meanwhile pulls w =
    ((job_repository (λ a b. a)).update (complete (noon + 1) running_job) w).1

stream-IsFeed_example :
    IsFeed (job_repository (λ a b. a)) json clock doze completed_meanwhile alice 10 none (
      stream (job_repository (λ a b. a)) json clock doze completed_meanwhile 3 6 stream_state world)
stream-IsFeed_example =
    stream-IsFeed (job_repository (λ a b. a)) json clock doze completed_meanwhile 3 6 stream_state
      world
