-- ===== src/Http/Fixtures.antt =====
-- A router over a small in-memory store, whose throttle and limiters let everything through.
use ai_agent_boilerplate.Prelude.{ℕ, Bool, true, none, some, [], ◌∷◌}
use ai_agent_boilerplate.Text.{Text, codes}
use ai_agent_boilerplate.Application.Fixtures.{
  agent_send, webhook_send, channel_send, error_text, hash, jwt, no_floats, hasher, embed_send,
}
use ai_agent_boilerplate.InMemory.World.{
  World, job_repository, search_repository, token_repository, user_repository, channel_repository,
  audit_log, document_repository, dispatcher, digest_sender, channel_notifier, embed_dispatcher,
}
use ai_agent_boilerplate.Http.Headers.{Headers}
use ai_agent_boilerplate.Http.State.{Library, AppState, EventDraw}
use ai_agent_boilerplate.Http.Auth.{CredentialsRequest}
use ai_agent_boilerplate.Http.Router.{Router, Request, Route}

abbrev pub library : Library
library = record {
  lowercase = λ t. t;
  hash = hash;
  family_text = λ id. codes "family";
  to_str = λ value. some value;
  job_error_text = error_text;
  channel_error_text = λ e. codes "invalid channel";
  document_error_text = λ e. codes "invalid document";
}

abbrev pub open_limiter : Text → World ℕ → Bool × World ℕ
open_limiter key w = (true, w)

abbrev pub state : AppState (World ℕ)
state = record {
  library = library;
  users = user_repository;
  jobs = job_repository (λ a b. a);
  refresh_tokens = token_repository;
  recurring = search_repository;
  dispatcher = dispatcher agent_send;
  digests = digest_sender webhook_send;
  hasher = hasher;
  tokens = jwt;
  audit = audit_log;
  login_throttle = open_limiter;
  readiness = λ w. (true, w);
  channels = channel_repository;
  notifier = channel_notifier channel_send;
  email_enabled = true;
  documents = document_repository no_floats;
  embed = embed_dispatcher embed_send;
  internal_token = codes "s3cret";
  daily_search_quota = 2;
  refresh_ttl_days = 30;
}

abbrev pub router : Router (World ℕ)
router = record { state = state; auth_limiter = open_limiter; api_limiter = open_limiter }

abbrev pub with_token : Headers
with_token = (codes "x-internal-token", codes "s3cret") ∷ []

abbrev pub forged : Headers
forged = (codes "x-internal-token", codes "guessed") ∷ []

abbrev pub ask : Headers → Route → Request
ask headers route = record { headers = headers; peer = none; route = route }

abbrev pub event : EventDraw
event = record { id = 50; at = 7 }

abbrev pub credentials : CredentialsRequest
credentials = record { email = codes "nobody@example.org"; password = codes "12345678" }
