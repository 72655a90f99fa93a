-- ===== src/Postgres/World.antt =====
-- main.rs, `serve`: the stack of a replica with a database, every port over the tables that the
-- replicas share.
use ai_agent_boilerplate.Prelude.{Bool, false, Option, none, some, List, [], ◌∷◌}
use ai_agent_boilerplate.Exec.{zoom}
use ai_agent_boilerplate.Ports.{
  Port, JobRepository, RecurringSearchRepository, RefreshTokenRepository, UserRepository,
  NotificationChannelRepository, SecurityAudit, DocumentRepository,
}
use ai_agent_boilerplate.Background.{LeaderLock}
use ai_agent_boilerplate.Startup.{Repos}
use ai_agent_boilerplate.Postgres.Server.{Server, Database, next_answer, later_answers}
use ai_agent_boilerplate.Postgres.Users
use ai_agent_boilerplate.Postgres.Tokens
use ai_agent_boilerplate.Postgres.Jobs
use ai_agent_boilerplate.Postgres.Results
use ai_agent_boilerplate.Postgres.Searches
use ai_agent_boilerplate.Postgres.Audit
use ai_agent_boilerplate.Postgres.Channels
use ai_agent_boilerplate.Postgres.Documents
use ai_agent_boilerplate.Postgres.Leader
use ai_agent_boilerplate.Postgres.Leader.{Session, LockState}

-- `connections` tells which connection the pool gives to the next attempts at leading, if any.
pub record Replica : Type 0 where
  pub database : Database
  pub leader : LockState
  pub connections : List (Option Session)

abbrev pub on_database : {A : Type 0} → Port Database A → Port Replica A
on_database = zoom (λ r. r.database) (λ d r. record r { database = d })

abbrev pub next_connection : List (Option Session) → Option Session
next_connection [] = none
next_connection (c ∷ rest) = c

abbrev pub later_connections : List (Option Session) → List (Option Session)
later_connections [] = []
later_connections (c ∷ rest) = rest

-- The replica after a statement on the lock, of which one answer is used up.
abbrev pub locked : LockState → Replica → Replica
locked l r = record r {
  database = record r.database { answers = later_answers r.database.answers };
  leader = l;
}

abbrev pub used_connection : Replica → Replica
used_connection r = record r { connections = later_connections r.connections }

-- Without a connection there is no statement.
abbrev pub try_lead : Option Session → Replica → Bool × Replica
try_lead none r = (false, r)
try_lead (some c) r =
    let a = Leader.acquire (some c) (next_answer r.database.answers) r.leader in (a.0, locked a.1 r)

abbrev pub stop_leading : Option Session → Replica → Replica
stop_leading none r = r
stop_leading (some c) r = locked (Leader.release (next_answer r.database.answers) r.leader) r

abbrev pub leader_lock : LeaderLock Replica
leader_lock = record {
  acquire = λ r. try_lead (next_connection r.connections) (used_connection r);
  release = λ r. stop_leading r.leader.held r;
}

abbrev pub audit_log : Server → SecurityAudit Replica
audit_log server = record {
  record_event = λ e. on_database (Audit.record_event server e);
  list_recent = λ limit. on_database (Audit.list_recent server limit);
  delete_before = λ cutoff. on_database (Audit.delete_before server cutoff);
}

abbrev pub user_repository : Server → UserRepository Replica
user_repository server = record {
  insert = λ u. on_database (Users.insert server u);
  find_by_email = λ email. on_database (Users.find_by_email email);
  find_by_id = λ id. on_database (Users.find_by_id id);
  delete = λ id. on_database (Users.delete id);
}

abbrev pub token_repository : Server → RefreshTokenRepository Replica
token_repository server = record {
  insert = λ t. on_database (Tokens.insert server t);
  find_by_hash = λ hash. on_database (Tokens.find_by_hash hash);
  mark_consumed = λ id at. on_database (Tokens.mark_consumed server id at);
  delete = λ id. on_database (Tokens.delete id);
  delete_family = λ family. on_database (Tokens.delete_family family);
  delete_all_for_user = λ user. on_database (Tokens.delete_all_for_user user);
  delete_expired = λ now. on_database (Tokens.delete_expired server now);
}

abbrev pub job_repository : Server → JobRepository Replica
job_repository server = record {
  insert = λ job. on_database (Jobs.insert server job);
  update = λ job. on_database (Jobs.update server job);
  find = λ id. on_database (Jobs.find id);
  list_for_user = λ user. on_database (Jobs.list_for_user server user);
  count_created_since = λ user since. on_database (Jobs.count_created_since server user since);
  list_unfinished_older_than =
      λ cutoff. on_database (Jobs.list_unfinished_older_than server cutoff);
  delete_finished_before = λ cutoff. on_database (Jobs.delete_finished_before server cutoff);
  delete_all_for_user = λ user. on_database (Jobs.delete_all_for_user user);
  store_results = λ id results. on_database (Results.store_results server id results);
  results_for = λ id. on_database (Results.results_for server id);
  append_step = λ id step. on_database (Results.append_step server id step);
  steps_for = λ id. on_database (Results.steps_for id);
  clear_steps = λ id. on_database (Results.clear_steps id);
  add_usage = λ id usage. on_database (Jobs.add_usage server id usage);
  recent_urls_for_recurring =
      λ id limit. on_database (Results.recent_urls_for_recurring server id limit);
}

abbrev pub search_repository : Server → RecurringSearchRepository Replica
search_repository server = record {
  insert = λ s. on_database (Searches.insert server s);
  find = λ id. on_database (Searches.find id);
  list_for_user = λ user. on_database (Searches.list_for_user server user);
  delete = λ user id. on_database (Searches.delete user id);
  delete_all_for_user = λ user. on_database (Searches.delete_all_for_user user);
  list_due = λ now. on_database (Searches.list_due server now);
  mark_ran = λ id at. on_database (Searches.mark_ran server id at);
}

abbrev pub channel_repository : Server → NotificationChannelRepository Replica
channel_repository server = record {
  insert = λ c. on_database (Channels.insert server c);
  list_for_user = λ user. on_database (Channels.list_for_user server user);
  delete = λ user id. on_database (Channels.delete user id);
  delete_all_for_user = λ user. on_database (Channels.delete_all_for_user user);
}

abbrev pub document_repository : Server → DocumentRepository Replica
document_repository server = record {
  insert = λ d. on_database (Documents.insert server d);
  list_for_user = λ user. on_database (Documents.list_for_user server user);
  find = λ id. on_database (Documents.find id);
  delete = λ user id. on_database (Documents.delete user id);
  store_chunks = λ d chunks. on_database (Documents.store_chunks server d chunks);
  mark_failed = λ id error. on_database (Documents.mark_failed id error);
  retrieve = λ user e k. on_database (Documents.retrieve server user e k);
  delete_all_for_user = λ user. on_database (Documents.delete_all_for_user user);
}

-- `if let Some(url) = &config.database_url { … }`
abbrev pub postgres_repos : Server → Repos Replica
postgres_repos server = record {
  users = user_repository server;
  jobs = job_repository server;
  refresh_tokens = token_repository server;
  recurring = search_repository server;
  audit = audit_log server;
  readiness = λ r. let a = Audit.ready r.database in (a.0, record r { database = a.1 });
  channels = channel_repository server;
  documents = document_repository server;
  leader = leader_lock;
}
