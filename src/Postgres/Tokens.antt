-- ===== src/Postgres/Tokens.antt =====
-- `PostgresRefreshTokenRepository`
use ai_agent_boilerplate.Prelude.{
  ℕ, Bool, ◌||◌, Option, none, some, [], ◌∷◌, ◌++◌, leb, ◌==◌, if◌then◌else◌, length, filter, any,
}
use ai_agent_boilerplate.Exec.{ok, err}
use ai_agent_boilerplate.Text.{Text, text_eq}
use ai_agent_boilerplate.Domain.{Uuid, Time}
use ai_agent_boilerplate.Domain.RefreshToken.{RefreshToken}
use ai_agent_boilerplate.Ports.{Port}
use ai_agent_boilerplate.Postgres.Tables.{delete_where, update_where, first_row}
use ai_agent_boilerplate.Postgres.Server.{Server, Database, Statement, execute, query, write}
use ai_agent_boilerplate.Postgres.Users.{has_user}

abbrev pub map_time : (Time → Time) → Option Time → Option Time
map_time f none = none
map_time f (some t) = some (f t)

-- `DELETE FROM refresh_tokens WHERE p`, with the number of rows affected.
abbrev delete_tokens : (RefreshToken → Bool) → Statement ℕ
delete_tokens p t = ok (
  length (filter p t.refresh_tokens),
  record t { refresh_tokens = delete_where p t.refresh_tokens },
)

abbrev forget : {A : Type 0} → Statement A → Statement Unit
forget st t = elim (st t) [ ok r ↦ ok (tt, r.1) | err m ↦ err m ]

module _ (server : Server) where
  abbrev pub token_row : RefreshToken → RefreshToken
  token_row token = record token {
    expires_at = server.timestamp token.expires_at;
    created_at = server.timestamp token.created_at;
    consumed_at = map_time server.timestamp token.consumed_at;
  }

  abbrev pub insert_token : RefreshToken → Statement Unit
  insert_token token t =
      if any (λ r. r.id == token.id || text_eq r.token_hash token.token_hash) t.refresh_tokens
      then err server.unique_violation
      else if has_user token.user_id t
      then ok (tt, record t { refresh_tokens = t.refresh_tokens ++ token_row token ∷ [] })
      else err server.foreign_key_violation

  unfoldable pub insert : RefreshToken → Port Database Unit
  insert token = execute (insert_token token)

  unfoldable pub mark_consumed : Uuid → Time → Port Database Unit
  mark_consumed id at = execute (
      write (λ t. record t {
        refresh_tokens =
            update_where (λ (r : RefreshToken). r.id == id)
              (λ r. record r { consumed_at = some (server.timestamp at) }) t.refresh_tokens;
      }))

  unfoldable pub delete_expired : Time → Port Database ℕ
  delete_expired now = execute (delete_tokens (λ r. leb r.expires_at (server.timestamp now)))

unfoldable pub find_by_hash : Text → Port Database (Option RefreshToken)
find_by_hash hash =
    execute (query (λ t. first_row (filter (λ r. text_eq r.token_hash hash) t.refresh_tokens)))

unfoldable pub delete : Uuid → Port Database Unit
delete id = execute (forget (delete_tokens (λ r. r.id == id)))

unfoldable pub delete_family : Uuid → Port Database Unit
delete_family family_id = execute (forget (delete_tokens (λ r. r.family_id == family_id)))

unfoldable pub delete_all_for_user : Uuid → Port Database ℕ
delete_all_for_user user_id = execute (delete_tokens (λ r. r.user_id == user_id))
