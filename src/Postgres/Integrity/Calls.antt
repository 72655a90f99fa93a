-- ===== src/Postgres/Integrity/Calls.antt =====
-- The calls of the repositories that write, in any order and whatever becomes of their statements.
use ai_agent_boilerplate.Prelude.{List, [], ◌∷◌}
use ai_agent_boilerplate.Text.{Text}
use ai_agent_boilerplate.Domain.{Uuid, Time}
use ai_agent_boilerplate.Domain.User.{User}
use ai_agent_boilerplate.Domain.Job.{ResearchJob, JobUsage, AgentStep}
use ai_agent_boilerplate.Domain.RefreshToken.{RefreshToken}
use ai_agent_boilerplate.Domain.SearchResult.{SearchResult}
use ai_agent_boilerplate.Domain.SecurityEvent.{SecurityEvent}
use ai_agent_boilerplate.Domain.Recurring.{RecurringSearch}
use ai_agent_boilerplate.Domain.Channel.{NotificationChannel}
use ai_agent_boilerplate.Domain.Document.{Document, NewChunk}
use ai_agent_boilerplate.Ports.{Port}
use ai_agent_boilerplate.Postgres.Server.{Server, Database}
use ai_agent_boilerplate.Postgres.Users
use ai_agent_boilerplate.Postgres.Tokens
use ai_agent_boilerplate.Postgres.Jobs
use ai_agent_boilerplate.Postgres.Results
use ai_agent_boilerplate.Postgres.Searches
use ai_agent_boilerplate.Postgres.Audit
use ai_agent_boilerplate.Postgres.Channels
use ai_agent_boilerplate.Postgres.Documents

pub data Call : Type 0 where
  insert_user : User → Call
  delete_user : Uuid → Call
  insert_token : RefreshToken → Call
  mark_consumed : Uuid → Time → Call
  delete_token : Uuid → Call
  delete_family : Uuid → Call
  delete_tokens_of : Uuid → Call
  delete_expired : Time → Call
  insert_job : ResearchJob → Call
  update_job : ResearchJob → Call
  add_usage : Uuid → JobUsage → Call
  delete_jobs_of : Uuid → Call
  delete_finished_before : Time → Call
  store_results : Uuid → List SearchResult → Call
  append_step : Uuid → AgentStep → Call
  clear_steps : Uuid → Call
  insert_search : RecurringSearch → Call
  mark_ran : Uuid → Time → Call
  delete_search : Uuid → Uuid → Call
  delete_searches_of : Uuid → Call
  record_event : SecurityEvent → Call
  delete_events_before : Time → Call
  insert_channel : NotificationChannel → Call
  delete_channel : Uuid → Uuid → Call
  delete_channels_of : Uuid → Call
  insert_document : Document → Call
  store_chunks : Document → List NewChunk → Call
  mark_failed : Uuid → Text → Call
  delete_document : Uuid → Uuid → Call
  delete_documents_of : Uuid → Call

-- The database that a call leaves.
abbrev left_by : {A : Type 0} → Port Database A → Database → Database
left_by m db = (m db).1

module _ (server : Server) where
  abbrev pub serve : Call → Database → Database
  serve (insert_user u) = left_by (Users.insert server u)
  serve (delete_user id) = left_by (Users.delete id)
  serve (insert_token r) = left_by (Tokens.insert server r)
  serve (mark_consumed id at) = left_by (Tokens.mark_consumed server id at)
  serve (delete_token id) = left_by (Tokens.delete id)
  serve (delete_family id) = left_by (Tokens.delete_family id)
  serve (delete_tokens_of id) = left_by (Tokens.delete_all_for_user id)
  serve (delete_expired now) = left_by (Tokens.delete_expired server now)
  serve (insert_job j) = left_by (Jobs.insert server j)
  serve (update_job j) = left_by (Jobs.update server j)
  serve (add_usage id u) = left_by (Jobs.add_usage server id u)
  serve (delete_jobs_of id) = left_by (Jobs.delete_all_for_user id)
  serve (delete_finished_before cutoff) = left_by (Jobs.delete_finished_before server cutoff)
  serve (store_results id rs) = left_by (Results.store_results server id rs)
  serve (append_step id s) = left_by (Results.append_step server id s)
  serve (clear_steps id) = left_by (Results.clear_steps id)
  serve (insert_search s) = left_by (Searches.insert server s)
  serve (mark_ran id at) = left_by (Searches.mark_ran server id at)
  serve (delete_search user_id id) = left_by (Searches.delete user_id id)
  serve (delete_searches_of id) = left_by (Searches.delete_all_for_user id)
  serve (record_event e) = left_by (Audit.record_event server e)
  serve (delete_events_before cutoff) = left_by (Audit.delete_before server cutoff)
  serve (insert_channel c) = left_by (Channels.insert server c)
  serve (delete_channel user_id id) = left_by (Channels.delete user_id id)
  serve (delete_channels_of id) = left_by (Channels.delete_all_for_user id)
  serve (insert_document d) = left_by (Documents.insert server d)
  serve (store_chunks d cs) = left_by (Documents.store_chunks server d cs)
  serve (mark_failed id e) = left_by (Documents.mark_failed id e)
  serve (delete_document user_id id) = left_by (Documents.delete user_id id)
  serve (delete_documents_of id) = left_by (Documents.delete_all_for_user id)

  abbrev pub serve_all : List Call → Database → Database
  serve_all [] db = db
  serve_all (c ∷ calls) db = serve_all calls (serve c db)
