-- ===== src/InMemory/World.antt =====
-- The stack that main.rs wires up without a database: every port over one shared state.
use ai_agent_boilerplate.Prelude.{ℕ, List}
use ai_agent_boilerplate.Text.{Text}
use ai_agent_boilerplate.Exec.{zoom}
use ai_agent_boilerplate.Domain.{Uuid}
use ai_agent_boilerplate.Domain.Job.{ResearchJob}
use ai_agent_boilerplate.Domain.Channel.{NotificationChannel}
use ai_agent_boilerplate.Ports.{
  Port, JobRepository, RecurringSearchRepository, RefreshTokenRepository, UserRepository,
  NotificationChannelRepository, SecurityAudit, DocumentRepository, JobDispatcher, DigestSender,
  ChannelNotifier, EmbedDispatcher, Digest,
}
use ai_agent_boilerplate.InMemory.Jobs
use ai_agent_boilerplate.InMemory.Jobs.{InMemoryJobRepository}
use ai_agent_boilerplate.InMemory.Searches
use ai_agent_boilerplate.InMemory.Searches.{Searches}
use ai_agent_boilerplate.InMemory.Tokens
use ai_agent_boilerplate.InMemory.Tokens.{Tokens}
use ai_agent_boilerplate.InMemory.Users
use ai_agent_boilerplate.InMemory.Users.{Users}
use ai_agent_boilerplate.InMemory.Channels
use ai_agent_boilerplate.InMemory.Channels.{Channels}
use ai_agent_boilerplate.InMemory.Audit
use ai_agent_boilerplate.InMemory.Audit.{Events}
use ai_agent_boilerplate.InMemory.Documents
use ai_agent_boilerplate.InMemory.Documents.{Documents, Float32}

-- `X` is the state outside the process.
pub record World (X : Type 0) : Type 0 where
  pub users : Users
  pub channels : Channels
  pub tokens : Tokens
  pub jobs : InMemoryJobRepository
  pub searches : Searches
  pub audit : Events
  pub documents : Documents
  pub outside : X

module _ {X : Type 0} where
  abbrev pub on_jobs : {A : Type 0} → Port InMemoryJobRepository A → Port (World X) A
  on_jobs = zoom (λ w. w.jobs) (λ t w. record w { jobs = t })

  abbrev pub on_searches : {A : Type 0} → Port Searches A → Port (World X) A
  on_searches = zoom (λ w. w.searches) (λ t w. record w { searches = t })

  abbrev pub on_tokens : {A : Type 0} → Port Tokens A → Port (World X) A
  on_tokens = zoom (λ w. w.tokens) (λ t w. record w { tokens = t })

  abbrev pub on_users : {A : Type 0} → Port Users A → Port (World X) A
  on_users = zoom (λ w. w.users) (λ t w. record w { users = t })

  abbrev pub on_channels : {A : Type 0} → Port Channels A → Port (World X) A
  on_channels = zoom (λ w. w.channels) (λ t w. record w { channels = t })

  abbrev pub on_audit : {A : Type 0} → Port Events A → Port (World X) A
  on_audit = zoom (λ w. w.audit) (λ t w. record w { audit = t })

  abbrev pub on_documents : {A : Type 0} → Port Documents A → Port (World X) A
  on_documents = zoom (λ w. w.documents) (λ t w. record w { documents = t })

  abbrev pub on_outside : {A : Type 0} → Port X A → Port (World X) A
  on_outside = zoom (λ w. w.outside) (λ t w. record w { outside = t })

  abbrev pub job_repository : (ℕ → ℕ → ℕ) → JobRepository (World X)
  job_repository add_f64 = record {
    insert = λ job. on_jobs (Jobs.insert job);
    update = λ job. on_jobs (Jobs.update job);
    find = λ id. on_jobs (Jobs.find id);
    list_for_user = λ user. on_jobs (Jobs.list_for_user user);
    count_created_since = λ user since. on_jobs (Jobs.count_created_since user since);
    list_unfinished_older_than = λ cutoff. on_jobs (Jobs.list_unfinished_older_than cutoff);
    delete_finished_before = λ cutoff. on_jobs (Jobs.delete_finished_before cutoff);
    delete_all_for_user = λ user. on_jobs (Jobs.delete_all_for_user user);
    store_results = λ id results. on_jobs (Jobs.store_results id results);
    results_for = λ id. on_jobs (Jobs.results_for id);
    append_step = λ id step. on_jobs (Jobs.append_step id step);
    steps_for = λ id. on_jobs (Jobs.steps_for id);
    clear_steps = λ id. on_jobs (Jobs.clear_steps id);
    add_usage = λ id usage. on_jobs (Jobs.add_usage add_f64 id usage);
    recent_urls_for_recurring = λ id limit. on_jobs (Jobs.recent_urls_for_recurring id limit);
  }

  abbrev pub search_repository : RecurringSearchRepository (World X)
  search_repository = record {
    insert = λ r. on_searches (Searches.insert r);
    find = λ id. on_searches (Searches.find id);
    list_for_user = λ user. on_searches (Searches.list_for_user user);
    delete = λ user id. on_searches (Searches.delete user id);
    delete_all_for_user = λ user. on_searches (Searches.delete_all_for_user user);
    list_due = λ now. on_searches (Searches.list_due now);
    mark_ran = λ id at. on_searches (Searches.mark_ran id at);
  }

  abbrev pub token_repository : RefreshTokenRepository (World X)
  token_repository = record {
    insert = λ t. on_tokens (Tokens.insert t);
    find_by_hash = λ hash. on_tokens (Tokens.find_by_hash hash);
    mark_consumed = λ id at. on_tokens (Tokens.mark_consumed id at);
    delete = λ id. on_tokens (Tokens.delete id);
    delete_family = λ family. on_tokens (Tokens.delete_family family);
    delete_all_for_user = λ user. on_tokens (Tokens.delete_all_for_user user);
    delete_expired = λ now. on_tokens (Tokens.delete_expired now);
  }

  abbrev pub user_repository : UserRepository (World X)
  user_repository = record {
    insert = λ u. on_users (Users.insert u);
    find_by_email = λ email. on_users (Users.find_by_email email);
    find_by_id = λ id. on_users (Users.find_by_id id);
    delete = λ id. on_users (Users.delete id);
  }

  abbrev pub channel_repository : NotificationChannelRepository (World X)
  channel_repository = record {
    insert = λ c. on_channels (Channels.insert c);
    list_for_user = λ user. on_channels (Channels.list_for_user user);
    delete = λ user id. on_channels (Channels.delete user id);
    delete_all_for_user = λ user. on_channels (Channels.delete_all_for_user user);
  }

  abbrev pub audit_log : SecurityAudit (World X)
  audit_log = record {
    record_event = λ e. on_audit (Audit.record_event e);
    list_recent = λ limit. on_audit (Audit.list_recent limit);
    delete_before = λ cutoff. on_audit (Audit.delete_before cutoff);
  }

  abbrev pub document_repository : Float32 → DocumentRepository (World X)
  document_repository f = record {
    insert = λ d. on_documents (Documents.insert d);
    list_for_user = λ user. on_documents (Documents.list_for_user user);
    find = λ id. on_documents (Documents.find id);
    delete = λ user id. on_documents (Documents.delete user id);
    store_chunks = λ d chunks. on_documents (Documents.store_chunks d chunks);
    mark_failed = λ id error. on_documents (Documents.mark_failed id error);
    retrieve = λ user e k. on_documents (Documents.retrieve f user e k);
    delete_all_for_user = λ user. on_documents (Documents.delete_all_for_user user);
  }

  -- What reaches outside the process touches no repository, and may fail.
  abbrev pub dispatcher : (ResearchJob → List Text → Port X Unit) → JobDispatcher (World X)
  dispatcher send = record { dispatch = λ job urls. on_outside (send job urls) }

  abbrev pub digest_sender : (Text → Digest → Port X Unit) → DigestSender (World X)
  digest_sender send = record { send = λ url digest. on_outside (send url digest) }

  abbrev pub channel_notifier :
      (NotificationChannel → Digest → Port X Unit) → ChannelNotifier (World X)
  channel_notifier send = record { notify = λ channel digest. on_outside (send channel digest) }

  abbrev pub embed_dispatcher : (Uuid → Text → Text → Port X Unit) → EmbedDispatcher (World X)
  embed_dispatcher send = record { dispatch_embed = λ id name text. on_outside (send id name text) }
