-- ===== src/Postgres/Audit.antt =====
-- `PostgresSecurityAudit` and `PostgresReadiness`
use ai_agent_boilerplate.Prelude.{
  ℕ, Bool, true, false, Option, none, some, List, [], ◌∷◌, ◌++◌, map, ltb, leb, ◌==◌, if◌then◌else◌,
  length, take, filter, any,
}
use ai_agent_boilerplate.Exec.{Result, ok, err}
use ai_agent_boilerplate.Sort.{sort_by}
use ai_agent_boilerplate.Domain.{Uuid, Time}
use ai_agent_boilerplate.Domain.SecurityEvent.{SecurityEvent}
use ai_agent_boilerplate.Domain.User.{User}
use ai_agent_boilerplate.Ports.{Port, PortError}
use ai_agent_boilerplate.Postgres.Tables.{delete_where}
use ai_agent_boilerplate.Postgres.Server.{Server, Database, Statement, execute, query}

abbrev pub newest_event_first : SecurityEvent → SecurityEvent → Bool
newest_event_first a b = leb b.created_at a.created_at

abbrev pub has_actor : Option Uuid → List User → Bool
has_actor none users = true
has_actor (some id) users = any (λ u. u.id == id) users

unfoldable pub security_event_from_row : SecurityEvent → SecurityEvent
security_event_from_row row = record {
  id = row.id;
  kind = row.kind;
  user_id = row.user_id;
  client_ip = row.client_ip;
  detail = row.detail;
  created_at = row.created_at;
}

module _ (server : Server) where
  abbrev pub event_row : SecurityEvent → SecurityEvent
  event_row event = record event { created_at = server.timestamp event.created_at }

  abbrev pub insert_event : SecurityEvent → Statement Unit
  insert_event event t =
      if any (λ e. e.id == event.id) t.security_events
      then err server.unique_violation
      else if has_actor event.user_id t.users
      then ok (tt, record t { security_events = t.security_events ++ event_row event ∷ [] })
      else err server.foreign_key_violation

  unfoldable pub record_event : SecurityEvent → Port Database Unit
  record_event event = execute (insert_event event)

  abbrev pub delete_events : (SecurityEvent → Bool) → Statement ℕ
  delete_events p t = ok (
    length (filter p t.security_events),
    record t { security_events = delete_where p t.security_events },
  )

  unfoldable pub delete_before : Time → Port Database ℕ
  delete_before cutoff = execute (delete_events (λ e. ltb e.created_at (server.timestamp cutoff)))

-- `limit.max(0)` of an `i64`: the limit is taken as that natural number.
unfoldable pub list_recent : Server → ℕ → Port Database (List SecurityEvent)
list_recent server limit = execute (
    query (λ t.
      map security_event_from_row
        (take limit (sort_by newest_event_first (server.scan t t.security_events)))))

abbrev pub is_ok : {A : Type 0} → Result PortError A → Bool
is_ok (ok a) = true
is_ok (err e) = false

-- `SELECT 1`
unfoldable pub ready : Database → Bool × Database
ready db = let r = execute (query (λ _. tt)) db in (is_ok r.0, r.1)
