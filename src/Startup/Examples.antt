-- ===== src/Startup/Examples.antt =====
-- A worker that presents the development token to a production backend.
use ai_agent_boilerplate.Prelude.{ℕ, ◌≡◌, refl, none, [], ◌∷◌}
use ai_agent_boilerplate.Text.Utf8.{as_bytes}
use ai_agent_boilerplate.Text.{codes, text_eq}
use ai_agent_boilerplate.Application.Fixtures.{hasher, jwt, world, no_floats}
use ai_agent_boilerplate.InMemory.World.{World}
use ai_agent_boilerplate.InMemory.Stack.{memory_repos}
use ai_agent_boilerplate.Exec.{ok}
use ai_agent_boilerplate.Config.{config_of, from_lookup, missing_required}
use ai_agent_boilerplate.Config.Fixtures.{environment}
use ai_agent_boilerplate.Outgoing.Webhook
use ai_agent_boilerplate.Http.Headers.{Headers, header}
use ai_agent_boilerplate.Http.Internal
use ai_agent_boilerplate.Http.Router.{internal, job_callback, serve}
use ai_agent_boilerplate.Http.Router.Guards.{no_token}
use ai_agent_boilerplate.Http.Fixtures.{library, open_limiter, ask}
use ai_agent_boilerplate.Startup.{Repos, Environment, router_of}
use ai_agent_boilerplate.Startup.Tokens.{placeholder_refused}

abbrev repos : Repos (World ℕ)
repos = memory_repos (λ a b. a) no_floats

abbrev http : Webhook.Library (World ℕ)
http = record {
  parse_url = λ url. ok (record { host = none; port = none });
  lookup_host = λ host port w. (ok [], w);
  ip_text = λ a. [];
  to_vec = λ digest. ok [];
  hmac_sha256 = λ secret body. [];
  status_text = λ status. [];
  post = λ resolver request w. (ok 200, w);
}

abbrev wiring : Environment (World ℕ)
wiring = record {
  postgres = λ url. repos;
  memory = repos;
  limiter = λ limit scope url. open_limiter;
  smtp_transport = λ smtp. none;
  count_event = λ kind w. w;
  library = library;
  http = http;
  uuid_text = λ id. codes "id";
  hasher = hasher;
  jwt = λ secret ttl. jwt;
}

abbrev development : Headers
development = (codes "x-internal-token", codes "change-me") ∷ []

placeholder_refused_example :
    serve
      (router_of wiring (config_of environment))
      (ask development (internal (job_callback 10 Internal.started)))
      world
    ≡ (no_token, world)
unfolding text_eq from_lookup missing_required header as_bytes
placeholder_refused_example =
    placeholder_refused wiring environment (config_of environment)
      (ask development (internal (job_callback 10 Internal.started)))
      (job_callback 10 Internal.started) (codes "change-me") world refl refl refl refl refl
