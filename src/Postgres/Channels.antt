-- ===== src/Postgres/Channels.antt =====
-- `PostgresNotificationChannelRepository`
use ai_agent_boilerplate.Prelude.{
  ℕ, Bool, ◌&&◌, Option, none, some, List, [], ◌∷◌, ◌++◌, map, leb, ◌==◌, if◌then◌else◌, length,
  filter, any,
}
use ai_agent_boilerplate.Exec.{ok, err}
use ai_agent_boilerplate.Sort.{sort_by}
use ai_agent_boilerplate.Domain.{Uuid}
use ai_agent_boilerplate.Domain.Channel.{NotificationChannel, ChannelKind, parse, as_str}
use ai_agent_boilerplate.Ports.{Port}
use ai_agent_boilerplate.Postgres.Tables.{ChannelRow, delete_where}
use ai_agent_boilerplate.Postgres.Server.{Server, Database, Statement, execute, query}
use ai_agent_boilerplate.Postgres.Users.{has_user}
use ai_agent_boilerplate.Postgres.Searches.{any_affected}

abbrev pub or_slack : Option ChannelKind → ChannelKind
or_slack none = ChannelKind.slack
or_slack (some kind) = kind

unfoldable pub channel_from_row : ChannelRow → NotificationChannel
channel_from_row row = record {
  id = row.id;
  user_id = row.user_id;
  kind = or_slack (parse row.kind);
  target = row.target;
  secret = row.secret;
  created_at = row.created_at;
}

abbrev pub oldest_row_first : ChannelRow → ChannelRow → Bool
oldest_row_first a b = leb a.created_at b.created_at

-- `DELETE FROM notification_channels WHERE p`, with the number of rows affected.
abbrev pub delete_channels : (ChannelRow → Bool) → Statement ℕ
delete_channels p t = ok (
  length (filter p t.notification_channels),
  record t { notification_channels = delete_where p t.notification_channels },
)

unfoldable pub list_for_user : Server → Uuid → Port Database (List NotificationChannel)
list_for_user server user_id = execute (
    query (λ t. map channel_from_row (
      sort_by oldest_row_first
        (server.scan t (filter (λ r. r.user_id == user_id) t.notification_channels)))))

unfoldable pub delete : Uuid → Uuid → Port Database Bool
delete user_id id =
    execute (any_affected (delete_channels (λ r. r.id == id && r.user_id == user_id)))

unfoldable pub delete_all_for_user : Uuid → Port Database ℕ
delete_all_for_user user_id = execute (delete_channels (λ r. r.user_id == user_id))

module _ (server : Server) where
  abbrev pub channel_row : NotificationChannel → ChannelRow
  channel_row channel = record {
    id = channel.id;
    user_id = channel.user_id;
    kind = as_str channel.kind;
    target = channel.target;
    secret = channel.secret;
    created_at = server.timestamp channel.created_at;
  }

  abbrev pub insert_channel : NotificationChannel → Statement Unit
  insert_channel channel t =
      if any (λ r. r.id == channel.id) t.notification_channels
      then err server.unique_violation
      else if has_user channel.user_id t
      then ok (
        tt,
        record t { notification_channels = t.notification_channels ++ channel_row channel ∷ [] },
      )
      else err server.foreign_key_violation

  unfoldable pub insert : NotificationChannel → Port Database Unit
  insert channel = execute (insert_channel channel)
