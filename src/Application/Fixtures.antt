-- ===== src/Application/Fixtures.antt =====
-- The use cases on a small store: a user with a finished, a waiting and a running job, a saved
-- search, a refresh token, and an agent that answers every dispatch.
use ai_agent_boilerplate.Prelude.{ℕ, ◌+◌, ◌-◌, none, some, List, [], ◌∷◌, ◌++◌, leb, ◌==◌}
use ai_agent_boilerplate.Text.{Text, codes, text_eq}
use ai_agent_boilerplate.Exec.{ok}
use ai_agent_boilerplate.Domain.{Uuid, Time, hours, days, minutes}
use ai_agent_boilerplate.Domain.Job.{
  JobError, ResearchJob, fresh_job, agent, workflow, running, awaiting_input,
}
use ai_agent_boilerplate.Domain.Recurring.{RecurringSearch, saved}
use ai_agent_boilerplate.Domain.RefreshToken.{RefreshToken}
use ai_agent_boilerplate.Domain.Channel.{NotificationChannel}
use ai_agent_boilerplate.Ports.{Port, Digest, TokenService, PasswordHasher}
use ai_agent_boilerplate.InMemory.Jobs.{InMemoryJobRepository}
use ai_agent_boilerplate.InMemory.Documents.{Float32}
use ai_agent_boilerplate.InMemory.World.{World}
use ai_agent_boilerplate.Application.{Draw}

abbrev pub alice : Uuid
alice = 1

abbrev pub bob : Uuid
bob = 2

abbrev pub noon : Time
noon = days 700_000

abbrev pub running_job : ResearchJob
running_job = record (fresh_job 10 (noon - hours 3) alice (codes "rust")) { status = running }

abbrev pub waiting_job : ResearchJob
waiting_job = record (fresh_job 11 (noon - hours 4) alice (codes "jaguar")) {
  mode = agent;
  status = awaiting_input;
  question = some (codes "Animal or car?");
  recurring_search_id = some 20;
}

abbrev pub bobs_job : ResearchJob
bobs_job = fresh_job 12 (noon - hours 1) bob (codes "go")

abbrev pub search : RecurringSearch
search = saved 20 (noon - days 2) alice (codes "rust") workflow 60 none

abbrev pub token : RefreshToken
token = record {
  id = 30;
  user_id = alice;
  family_id = 40;
  token_hash = codes "hashed a";
  expires_at = noon + days 1;
  created_at = noon - days 1;
  consumed_at = none;
}

abbrev pub store : InMemoryJobRepository
store = record {
  jobs = (10, running_job) ∷ (11, waiting_job) ∷ (12, bobs_job) ∷ [];
  results = [];
  steps = [];
}

abbrev pub world : World ℕ
world = record {
  users = [];
  channels = [];
  tokens = (30, token) ∷ [];
  jobs = store;
  searches = (20, search) ∷ [];
  audit = [];
  documents = record { documents = []; chunks = [] };
  outside = 0;
}

-- Counts what it is sent.
abbrev pub agent_send : ResearchJob → List Text → Port ℕ Unit
agent_send job urls n = (ok tt, n + 1)

abbrev pub webhook_send : Text → Digest → Port ℕ Unit
webhook_send url digest n = (ok tt, n + 1)

abbrev pub channel_send : NotificationChannel → Digest → Port ℕ Unit
channel_send channel digest n = (ok tt, n + 1)

abbrev pub error_text : JobError → Text
error_text e = codes "invalid"

abbrev pub hash : Text → Text
hash plaintext = codes "hashed " ++ plaintext

abbrev pub jwt : TokenService
jwt = record { issue = λ user. ok (codes "jwt"); verify = λ t. none }

abbrev pub draw : Draw
draw = record { id = 13; created = noon; failed = noon + minutes 1 }

abbrev pub draws : ℕ → Draw
draws i = record { id = 100 + i; created = noon; failed = noon + minutes 1 }

abbrev pub no_floats : Float32
no_floats = record {
  zero_f32 = 0;
  empty_sum = 0;
  is_zero = λ x. x == 0;
  mul_f32 = λ a b. a;
  add_f32 = λ a b. a;
  div_f32 = λ a b. a;
  sqrt_f32 = λ a. a;
  total_le = leb;
}

abbrev pub hasher : PasswordHasher
hasher = record {
  hash = λ password. ok (codes "argon2 " ++ password);
  verify = λ password hashed. text_eq hashed (codes "argon2 " ++ password);
}

abbrev pub embed_send : Uuid → Text → Text → Port ℕ Unit
embed_send id name text n = (ok tt, n + 1)
