-- ===== src/InMemory/Stack.antt =====
-- main.rs, `serve`: the stack of a single instance without a database.
use ai_agent_boilerplate.Prelude.{ℕ, Bool, true}
use ai_agent_boilerplate.Background.{noop_leader_lock}
use ai_agent_boilerplate.Startup.{Repos}
use ai_agent_boilerplate.InMemory.Documents.{Float32}
use ai_agent_boilerplate.InMemory.World.{
  World, job_repository, search_repository, token_repository, user_repository, channel_repository,
  audit_log, document_repository,
}

-- `AlwaysReady`: there is nothing outside the process to check.
abbrev always_ready : {S : Type 0} → S → Bool × S
always_ready s = (true, s)

abbrev pub memory_repos : {X : Type 0} → (ℕ → ℕ → ℕ) → Float32 → Repos (World X)
memory_repos add_f64 f = record {
  users = user_repository;
  jobs = job_repository add_f64;
  refresh_tokens = token_repository;
  recurring = search_repository;
  audit = audit_log;
  readiness = always_ready;
  channels = channel_repository;
  documents = document_repository f;
  leader = noop_leader_lock;
}
