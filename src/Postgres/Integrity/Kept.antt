-- ===== src/Postgres/Integrity/Kept.antt =====
-- The calls of the repositories that write, and the references between the tables.
use ai_agent_boilerplate.Prelude.{
  Bool, true, false, not, ◌&&◌, ◌||◌, some, List, [], ◌∷◌, ◌++◌, arith, leb, ◌==◌, if◌then◌else◌,
  any,
}
use ai_agent_boilerplate.Exec.{Result, ok}
use ai_agent_boilerplate.Text.{text_eq, Text, codes}
use ai_agent_boilerplate.Domain.{Uuid}
use ai_agent_boilerplate.Domain.RefreshToken.{RefreshToken}
use ai_agent_boilerplate.Domain.SecurityEvent.{SecurityEvent}
use ai_agent_boilerplate.Domain.Recurring.{
  RecurringSearch, min_interval_minutes, max_interval_minutes,
}
use ai_agent_boilerplate.Domain.Channel.{NotificationChannel}
use ai_agent_boilerplate.Domain.User.{User}
use ai_agent_boilerplate.Domain.Job.{ResearchJob, AgentStep}
use ai_agent_boilerplate.Domain.Document.{Document}
use ai_agent_boilerplate.Postgres.Tables.{Tables, ChannelRow, delete_where}
use ai_agent_boilerplate.Postgres.Tables.Laws.{All-delete_where, All-update_where}
use ai_agent_boilerplate.Postgres.Server.{write, Server, Database}
use ai_agent_boilerplate.Postgres.Users
use ai_agent_boilerplate.Postgres.Tokens
use ai_agent_boilerplate.Postgres.Jobs
use ai_agent_boilerplate.Postgres.Results
use ai_agent_boilerplate.Postgres.Searches
use ai_agent_boilerplate.Postgres.Audit
use ai_agent_boilerplate.Postgres.Channels
use ai_agent_boilerplate.Postgres.Documents
use ai_agent_boilerplate.Postgres.Integrity.{IsIntact}
use ai_agent_boilerplate.Postgres.Integrity.Replaced.{
  set_tokens-IsIntact, set_steps-IsIntact, set_events-IsIntact, set_channels-IsIntact,
}
use ai_agent_boilerplate.Postgres.Integrity.Inserts.{
  insert_token-IsIntact, insert_step-IsIntact, insert_event-IsIntact, insert_channel-IsIntact,
  insert_user-IsIntact, insert_job-IsIntact, insert_search-IsIntact, insert_document-IsIntact,
}
use ai_agent_boilerplate.Postgres.Integrity.Drops.{
  drop_jobs-IsIntact, drop_searches-IsIntact, drop_documents-IsIntact, drop_user-IsIntact,
}
use ai_agent_boilerplate.Postgres.Integrity.Statements.{
  Leaves, Keeps, refused_if, refused_unless, execute-Keeps,
}
use ai_agent_boilerplate.Postgres.Integrity.Rows.{
  update_jobs-IsIntact, update_searches-IsIntact, update_documents-IsIntact, spend-Leaves,
}
use ai_agent_boilerplate.Postgres.Integrity.Calls.{
  Call, insert_user, delete_user, insert_token, mark_consumed, delete_token, delete_family,
  delete_tokens_of, delete_expired, insert_job, update_job, add_usage, delete_jobs_of,
  delete_finished_before, store_results, append_step, clear_steps, insert_search, mark_ran,
  delete_search, delete_searches_of, record_event, delete_events_before, insert_channel,
  delete_channel, delete_channels_of, insert_document, store_chunks, mark_failed, delete_document,
  delete_documents_of, serve, serve_all,
}
use ai_agent_boilerplate.Postgres.Integrity.Transactions.{store_results-Keeps, store_chunks-Keeps}

remove_tokens :
    (p : RefreshToken → Bool) {t : Tables}
    → IsIntact t
    → IsIntact (record t { refresh_tokens = delete_where p t.refresh_tokens })
remove_tokens p {t} v =
    set_tokens-IsIntact v (delete_where p t.refresh_tokens)
      (All-delete_where p _ t.refresh_tokens v.tokens)

remove_channels :
    (p : ChannelRow → Bool) {t : Tables}
    → IsIntact t
    → IsIntact (record t { notification_channels = delete_where p t.notification_channels })
remove_channels p {t} v =
    set_channels-IsIntact v (delete_where p t.notification_channels)
      (All-delete_where p _ t.notification_channels v.channels)

-- `ON CONFLICT … DO NOTHING`
unless_there :
    {t : Tables} (b : Bool) (r : Result Text (Unit × Tables))
    → IsIntact t
    → Leaves r
    → Leaves (if b then ok (tt, t) else r)
unless_there true r v h = v
unless_there false r v h = h

module _ (server : Server) where
  insert_user-Keeps : (u : User) → Keeps (Users.insert server u)
  unfolding Users.insert
  insert_user-Keeps u = execute-Keeps (Users.insert_user server u) (λ t v.
      refused_if {A = Unit} (any (λ w. w.id == u.id || text_eq w.email u.email) t.users)
        server.unique_violation
        (ok (tt, record t { users = t.users ++ Users.user_row server u ∷ [] }))
        (insert_user-IsIntact v (Users.user_row server u)))

  insert_token-Keeps : (r : RefreshToken) → Keeps (Tokens.insert server r)
  unfolding Tokens.insert
  insert_token-Keeps r = execute-Keeps (Tokens.insert_token server r) (λ t v.
      refused_if _ server.unique_violation _ (
        refused_unless (Users.has_user r.user_id t) server.foreign_key_violation _
          (λ e. insert_token-IsIntact v (Tokens.token_row server r) e)))

  insert_job-Keeps : (j : ResearchJob) → Keeps (Jobs.insert server j)
  unfolding Jobs.insert
  insert_job-Keeps j = execute-Keeps (Jobs.insert_job server j) (λ t v.
      refused_if _ server.unique_violation _ (
        refused_unless
          (Users.has_user j.user_id t && Jobs.has_link j.recurring_search_id t.recurring_searches)
          server.foreign_key_violation _
          (λ e. insert_job-IsIntact v (Jobs.job_row server j) (ground arith) (ground arith))))

  append_step-Keeps : (id : Uuid) (s : AgentStep) → Keeps (Results.append_step server id s)
  unfolding Results.append_step
  append_step-Keeps id s = execute-Keeps (Results.insert_step server id s) (λ t v.
      unless_there _ _ v (
        refused_unless (Results.has_job id t) server.foreign_key_violation _
          (λ e. insert_step-IsIntact v (record { job_id = id; step = s }) e)))

  insert_search-Keeps : (s : RecurringSearch) → Keeps (Searches.insert server s)
  unfolding Searches.insert
  insert_search-Keeps s = execute-Keeps (Searches.insert_search server s) (λ t v.
      refused_if {A = Unit}
        (not (
          leb min_interval_minutes s.interval_minutes
          && leb s.interval_minutes max_interval_minutes))
        server.check_violation _
        (refused_if (any (λ r. r.id == s.id) t.recurring_searches) server.unique_violation _ (
          refused_unless (Users.has_user s.user_id t) server.foreign_key_violation _
            (λ e. insert_search-IsIntact v (Searches.search_row server s) e))))

  record_event-Keeps : (e : SecurityEvent) → Keeps (Audit.record_event server e)
  unfolding Audit.record_event
  record_event-Keeps e = execute-Keeps (Audit.insert_event server e) (λ t v.
      refused_if _ server.unique_violation _ (
        refused_unless (Audit.has_actor e.user_id t.users) server.foreign_key_violation _
          (λ k. insert_event-IsIntact v (Audit.event_row server e) k)))

  insert_channel-Keeps : (c : NotificationChannel) → Keeps (Channels.insert server c)
  unfolding Channels.insert
  insert_channel-Keeps c = execute-Keeps (Channels.insert_channel server c) (λ t v.
      refused_if _ server.unique_violation _ (
        refused_unless (Users.has_user c.user_id t) server.foreign_key_violation _
          (λ e. insert_channel-IsIntact v (Channels.channel_row server c) e)))

  insert_document-Keeps : (d : Document) → Keeps (Documents.insert server d)
  unfolding Documents.insert
  insert_document-Keeps d = execute-Keeps (Documents.insert_document server d) (λ t v.
      refused_if _ server.unique_violation _ (
        refused_unless (Users.has_user d.user_id t) server.foreign_key_violation _
          (λ e. insert_document-IsIntact v (Documents.document_row server d) e)))

  serve-Keeps :
      (c : Call) (db : Database) → IsIntact db.tables → IsIntact (serve server c db).tables
  unfolding Users.delete Tokens.mark_consumed Tokens.delete Tokens.delete_family
      Tokens.delete_all_for_user Tokens.delete_expired Jobs.update Jobs.add_usage
      Jobs.delete_all_for_user Jobs.delete_finished_before Results.clear_steps Searches.mark_ran
      Searches.delete Searches.delete_all_for_user Audit.delete_before Channels.delete
      Channels.delete_all_for_user Documents.mark_failed Documents.delete
      Documents.delete_all_for_user
  serve-Keeps (insert_user u) = insert_user-Keeps u
  serve-Keeps (delete_user id) =
      execute-Keeps (write (Users.drop_user id)) (λ t v. drop_user-IsIntact v id)
  serve-Keeps (insert_token r) = insert_token-Keeps r
  serve-Keeps (mark_consumed id at) =
      execute-Keeps _ (λ t v.
        set_tokens-IsIntact v _ (All-update_where _ _ _ t.refresh_tokens (λ r h. h) v.tokens))
  serve-Keeps (delete_token id) = execute-Keeps _ (λ t v. remove_tokens (λ r. r.id == id) v)
  serve-Keeps (delete_family id) = execute-Keeps _ (λ t v. remove_tokens (λ r. r.family_id == id) v)
  serve-Keeps (delete_tokens_of id) =
      execute-Keeps _ (λ t v. remove_tokens (λ r. r.user_id == id) v)
  serve-Keeps (delete_expired now) =
      execute-Keeps _ (λ t v. remove_tokens (λ r. leb r.expires_at (server.timestamp now)) v)
  serve-Keeps (insert_job j) = insert_job-Keeps j
  serve-Keeps (update_job j) =
      execute-Keeps _ (λ t v. update_jobs-IsIntact v (λ r. r.id == j.id) server j)
  serve-Keeps (add_usage id u) = execute-Keeps _ (λ t v. spend-Leaves server id u v)
  serve-Keeps (delete_jobs_of id) =
      execute-Keeps _ (λ t v. drop_jobs-IsIntact v (λ r. r.user_id == id))
  serve-Keeps (delete_finished_before cutoff) =
      execute-Keeps _
        (λ t v. drop_jobs-IsIntact v (Jobs.is_finished_before (server.timestamp cutoff)))
  serve-Keeps (store_results id rs) = store_results-Keeps server id rs
  serve-Keeps (append_step id s) = append_step-Keeps id s
  serve-Keeps (clear_steps id) =
      execute-Keeps _ (λ t v. set_steps-IsIntact v _ (All-delete_where _ _ t.agent_steps v.steps))
  serve-Keeps (insert_search s) = insert_search-Keeps s
  serve-Keeps (mark_ran id at) =
      execute-Keeps _
        (λ t v. update_searches-IsIntact v (λ r. r.id == id) (some (server.timestamp at)))
  serve-Keeps (delete_search user_id id) =
      execute-Keeps _ (λ t v. drop_searches-IsIntact v (λ r. r.id == id && r.user_id == user_id))
  serve-Keeps (delete_searches_of id) =
      execute-Keeps _ (λ t v. drop_searches-IsIntact v (λ r. r.user_id == id))
  serve-Keeps (record_event e) = record_event-Keeps e
  serve-Keeps (delete_events_before cutoff) =
      execute-Keeps _
        (λ t v. set_events-IsIntact v _ (All-delete_where _ _ t.security_events v.events))
  serve-Keeps (insert_channel c) = insert_channel-Keeps c
  serve-Keeps (delete_channel user_id id) =
      execute-Keeps _ (λ t v. remove_channels (λ r. r.id == id && r.user_id == user_id) v)
  serve-Keeps (delete_channels_of id) =
      execute-Keeps _ (λ t v. remove_channels (λ r. r.user_id == id) v)
  serve-Keeps (insert_document d) = insert_document-Keeps d
  serve-Keeps (store_chunks d cs) = store_chunks-Keeps server d cs
  serve-Keeps (mark_failed id e) =
      execute-Keeps _
        (λ t v. update_documents-IsIntact v (λ d. d.id == id) (codes "failed") (some e))
  serve-Keeps (delete_document user_id id) =
      execute-Keeps _ (λ t v. drop_documents-IsIntact v (λ d. d.id == id && d.user_id == user_id))
  serve-Keeps (delete_documents_of id) =
      execute-Keeps _ (λ t v. drop_documents-IsIntact v (λ d. d.user_id == id))

  -- Whatever becomes of the statements, any sequence of the repositories' calls that write
  -- leaves every row's references to users, jobs, saved searches and documents pointing at rows
  -- that are there, where they did before.
  pub calls-IsIntact :
      (calls : List Call) (db : Database)
      → IsIntact db.tables
      → IsIntact (serve_all server calls db).tables
  calls-IsIntact [] db v = v
  calls-IsIntact (c ∷ calls) db v = calls-IsIntact calls (serve server c db) (serve-Keeps c db v)
