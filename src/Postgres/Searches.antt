-- ===== src/Postgres/Searches.antt =====
-- `PostgresRecurringSearchRepository`
use ai_agent_boilerplate.Prelude.{
  ℕ, ◌+◌, Bool, true, not, ◌&&◌, Option, none, some, List, [], ◌∷◌, ◌++◌, map, ltb, leb, ◌==◌,
  if◌then◌else◌, length, filter, any,
}
use ai_agent_boilerplate.Exec.{ok, err}
use ai_agent_boilerplate.Sort.{sort_by}
use ai_agent_boilerplate.Domain.{Uuid, Time, minutes}
use ai_agent_boilerplate.Domain.Recurring.{
  RecurringSearch, min_interval_minutes, max_interval_minutes,
}
use ai_agent_boilerplate.Ports.{Port}
use ai_agent_boilerplate.Postgres.Tables.{
  map_first, SearchRow, update_where, first_row, drop_searches,
}
use ai_agent_boilerplate.Postgres.Columns.{mode_to_str, mode_from_str}
use ai_agent_boilerplate.Postgres.Server.{Server, Database, Statement, execute, query, write}
use ai_agent_boilerplate.Postgres.Users.{has_user}
use ai_agent_boilerplate.Postgres.Tokens.{map_time}

unfoldable pub recurring_from_row : SearchRow → RecurringSearch
recurring_from_row row = record {
  id = row.id;
  user_id = row.user_id;
  keyword = row.keyword;
  mode = mode_from_str row.mode;
  interval_minutes = row.interval_minutes;
  webhook_url = row.webhook_url;
  created_at = row.created_at;
  last_run_at = row.last_run_at;
}

abbrev pub newest_search_first : SearchRow → SearchRow → Bool
newest_search_first a b = leb b.created_at a.created_at

-- `last_run_at IS NULL OR last_run_at + make_interval(mins => interval_minutes) <= $1`
abbrev pub is_row_due : Time → SearchRow → Bool
is_row_due now row = elim row.last_run_at [
  | none ↦ true
  | some last ↦ leb (last + minutes row.interval_minutes) now
]

-- `DELETE FROM recurring_searches WHERE p`, with the number of rows affected.
abbrev pub delete_searches : (SearchRow → Bool) → Statement ℕ
delete_searches p t = ok (length (filter p t.recurring_searches), drop_searches p t)

-- `rows_affected() > 0`
abbrev pub any_affected : Statement ℕ → Statement Bool
any_affected st t = elim (st t) [ ok r ↦ ok (ltb 0 r.0, r.1) | err m ↦ err m ]

unfoldable pub find : Uuid → Port Database (Option RecurringSearch)
find id = execute (
    query (λ t.
      map_first recurring_from_row (first_row (filter (λ r. r.id == id) t.recurring_searches))))

unfoldable pub list_for_user : Server → Uuid → Port Database (List RecurringSearch)
list_for_user server user_id = execute (
    query (λ t. map recurring_from_row (
      sort_by newest_search_first
        (server.scan t (filter (λ r. r.user_id == user_id) t.recurring_searches)))))

unfoldable pub delete : Uuid → Uuid → Port Database Bool
delete user_id id =
    execute (any_affected (delete_searches (λ r. r.id == id && r.user_id == user_id)))

unfoldable pub delete_all_for_user : Uuid → Port Database ℕ
delete_all_for_user user_id = execute (delete_searches (λ r. r.user_id == user_id))

module _ (server : Server) where
  -- An interval of a `u32` is bound `as i32`: out of range, it is negative or too long, and the
  -- table's check refuses both.
  abbrev pub search_row : RecurringSearch → SearchRow
  search_row search = record {
    id = search.id;
    user_id = search.user_id;
    keyword = search.keyword;
    mode = mode_to_str search.mode;
    interval_minutes = search.interval_minutes;
    webhook_url = search.webhook_url;
    created_at = server.timestamp search.created_at;
    last_run_at = map_time server.timestamp search.last_run_at;
  }

  abbrev pub insert_search : RecurringSearch → Statement Unit
  insert_search search t =
      if not (
        leb min_interval_minutes search.interval_minutes
        && leb search.interval_minutes max_interval_minutes)
      then err server.check_violation
      else if any (λ r. r.id == search.id) t.recurring_searches
      then err server.unique_violation
      else if has_user search.user_id t
      then ok (tt, record t { recurring_searches = t.recurring_searches ++ search_row search ∷ [] })
      else err server.foreign_key_violation

  unfoldable pub insert : RecurringSearch → Port Database Unit
  insert search = execute (insert_search search)

  unfoldable pub list_due : Time → Port Database (List RecurringSearch)
  list_due now = execute (
      query (λ t.
        map recurring_from_row
          (server.scan t (filter (is_row_due (server.timestamp now)) t.recurring_searches))))

  unfoldable pub mark_ran : Uuid → Time → Port Database Unit
  mark_ran id at = execute (
      write (λ t. record t {
        recurring_searches =
            update_where (λ (r : SearchRow). r.id == id)
              (λ r. record r { last_run_at = some (server.timestamp at) }) t.recurring_searches;
      }))
