-- ===== src/Postgres/Users.antt =====
-- `PostgresUserRepository`
pub mod Cascade
use ai_agent_boilerplate.Prelude.{
  Bool, false, ◌||◌, Option, none, some, [], ◌∷◌, ◌++◌, ◌==◌, if◌then◌else◌, filter, any,
}
use ai_agent_boilerplate.Exec.{ok, err}
use ai_agent_boilerplate.Text.{Text, text_eq}
use ai_agent_boilerplate.Domain.{Uuid}
use ai_agent_boilerplate.Domain.User.{User}
use ai_agent_boilerplate.Domain.RefreshToken.{RefreshToken}
use ai_agent_boilerplate.Domain.SecurityEvent.{SecurityEvent}
use ai_agent_boilerplate.Ports.{Port}
use ai_agent_boilerplate.Postgres.Tables.{
  map_first, Tables, ChannelRow, ChunkRow, delete_where, update_where, first_row, drop_jobs,
  drop_searches, drop_documents,
}
use ai_agent_boilerplate.Postgres.Server.{Server, Database, Statement, execute, query, write}

-- `REFERENCES users`
abbrev pub has_user : Uuid → Tables → Bool
has_user id t = any (λ u. u.id == id) t.users

abbrev pub is_event_of : Uuid → SecurityEvent → Bool
is_event_of id e = elim e.user_id [ none ↦ false | some u ↦ u == id ]

-- The rows with a column of the user: `ON DELETE CASCADE`, but for the audit log's `SET NULL`.
unfoldable pub drop_rows_of : Uuid → Tables → Tables
drop_rows_of id t = record t {
  users = delete_where (λ (u : User). u.id == id) t.users;
  refresh_tokens = delete_where (λ (r : RefreshToken). r.user_id == id) t.refresh_tokens;
  notification_channels =
      delete_where (λ (c : ChannelRow). c.user_id == id) t.notification_channels;
  document_chunks = delete_where (λ (c : ChunkRow). c.user_id == id) t.document_chunks;
  security_events =
      update_where (is_event_of id) (λ e. record e { user_id = none }) t.security_events;
}

-- Jobs, searches and documents go first, each with what refers to them.
unfoldable pub drop_user : Uuid → Tables → Tables
unfolding drop_rows_of
drop_user id t = drop_rows_of id (
    drop_documents (λ d. d.user_id == id)
      (drop_searches (λ s. s.user_id == id) (drop_jobs (λ j. j.user_id == id) t)))

unfoldable pub user_from_row : User → User
user_from_row row = record {
  id = row.id;
  email = row.email;
  password_hash = row.password_hash;
  created_at = row.created_at;
}

module _ (server : Server) where
  abbrev pub user_row : User → User
  user_row user = record user { created_at = server.timestamp user.created_at }

  abbrev pub insert_user : User → Statement Unit
  insert_user user t =
      if any (λ u. u.id == user.id || text_eq u.email user.email) t.users
      then err server.unique_violation
      else ok (tt, record t { users = t.users ++ user_row user ∷ [] })

  unfoldable pub insert : User → Port Database Unit
  insert user = execute (insert_user user)

unfoldable pub find_by_email : Text → Port Database (Option User)
find_by_email email =
    execute (
      query
        (λ t. map_first user_from_row (first_row (filter (λ u. text_eq u.email email) t.users))))

unfoldable pub find_by_id : Uuid → Port Database (Option User)
find_by_id id =
    execute (query (λ t. map_first user_from_row (first_row (filter (λ u. u.id == id) t.users))))

unfoldable pub delete : Uuid → Port Database Unit
delete id = execute (write (drop_user id))
