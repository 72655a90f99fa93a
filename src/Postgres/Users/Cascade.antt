-- ===== src/Postgres/Users/Cascade.antt =====
-- What the foreign keys take along when an account is deleted.
use mathlib.Core.Path.{subst}
use ai_agent_boilerplate.Prelude.{
  ◌≡◌, refl, sym, false, not, List, map, ◌==◌, length, filter, All, contains,
}
use ai_agent_boilerplate.Exec.{ok}
use ai_agent_boilerplate.Domain.{Uuid}
use ai_agent_boilerplate.Postgres.Tables.{
  Tables, delete_where, drop_jobs, drop_searches, drop_documents,
}
use ai_agent_boilerplate.Postgres.Tables.Laws.{
  delete_where-All, others_stay, All-update_where, update_where-All, length-update_where,
}
use ai_agent_boilerplate.Postgres.Server.{Database}
use ai_agent_boilerplate.Postgres.Server.Laws.{write_ok}
use ai_agent_boilerplate.Postgres.Users.{is_event_of, drop_user, delete}

abbrev pub jobs_of : Uuid → Tables → List Uuid
jobs_of id t = map (λ j. j.id) (filter (λ j. j.user_id == id) t.research_jobs)

-- No row is the user's or of a job of the user; the rows of others stay, in order.
pub record Erased (id : Uuid) (t t' : Tables) : Type 0 where
  pub users : All (λ u. (u.id == id) ≡ false) t'.users
  pub tokens : All (λ r. (r.user_id == id) ≡ false) t'.refresh_tokens
  pub jobs : All (λ j. (j.user_id == id) ≡ false) t'.research_jobs
  pub results : All (λ r. contains r.job_id (jobs_of id t) ≡ false) t'.search_results
  pub steps : All (λ r. contains r.job_id (jobs_of id t) ≡ false) t'.agent_steps
  pub searches : All (λ r. (r.user_id == id) ≡ false) t'.recurring_searches
  pub channels : All (λ r. (r.user_id == id) ≡ false) t'.notification_channels
  pub documents : All (λ d. (d.user_id == id) ≡ false) t'.documents
  pub chunks : All (λ c. (c.user_id == id) ≡ false) t'.document_chunks
  pub events : All (λ e. is_event_of id e ≡ false) t'.security_events
  pub others_users :
      filter (λ u. not (u.id == id)) t'.users ≡ filter (λ u. not (u.id == id)) t.users
  pub others_tokens :
      filter (λ r. not (r.user_id == id)) t'.refresh_tokens
      ≡ filter (λ r. not (r.user_id == id)) t.refresh_tokens
  pub others_searches :
      filter (λ r. not (r.user_id == id)) t'.recurring_searches
      ≡ filter (λ r. not (r.user_id == id)) t.recurring_searches
  pub others_channels :
      filter (λ r. not (r.user_id == id)) t'.notification_channels
      ≡ filter (λ r. not (r.user_id == id)) t.notification_channels
  pub others_documents :
      filter (λ r. not (r.user_id == id)) t'.documents
      ≡ filter (λ r. not (r.user_id == id)) t.documents
  pub others_results :
      filter (λ r. not (contains r.job_id (jobs_of id t))) t'.search_results
      ≡ filter (λ r. not (contains r.job_id (jobs_of id t))) t.search_results
  pub events_kept : length t'.security_events ≡ length t.security_events

drop_user-Erased : (id : Uuid) (t : Tables) → Erased id t (drop_user id t)
unfolding drop_user drop_jobs drop_searches drop_documents
drop_user-Erased id t = record {
  users = delete_where-All _ t.users;
  tokens = delete_where-All _ t.refresh_tokens;
  jobs =
      All-update_where _ (λ j. (j.user_id == id) ≡ false) _ (delete_where _ t.research_jobs)
        (λ j h. h) (delete_where-All _ t.research_jobs);
  results = delete_where-All _ t.search_results;
  steps = delete_where-All _ t.agent_steps;
  searches = delete_where-All _ t.recurring_searches;
  channels = delete_where-All _ t.notification_channels;
  documents = delete_where-All _ t.documents;
  chunks = delete_where-All _ _;
  events = update_where-All _ _ t.security_events (λ e. refl);
  others_users = others_stay _ t.users;
  others_tokens = others_stay _ t.refresh_tokens;
  others_searches = others_stay _ t.recurring_searches;
  others_channels = others_stay _ t.notification_channels;
  others_documents = others_stay _ t.documents;
  others_results = others_stay _ t.search_results;
  events_kept = length-update_where _ _ t.security_events;
}

-- An account that is deleted with success leaves no row of the user in any table, no result or
-- journal entry of the user's jobs and no event that names the user, while the accounts, tokens,
-- searches, channels, documents and results of others stay, in order, and the audit log keeps
-- every event.
pub delete_cascades :
    (id : Uuid) (db : Database)
    → (delete id db).0 ≡ ok tt
    → Erased id db.tables (delete id db).1.tables
unfolding delete
delete_cascades id db h =
    subst (Erased id db.tables) (sym (write_ok (drop_user id) db tt h))
      (drop_user-Erased id db.tables)
