-- ===== src/InMemory/Channels.antt =====
-- `InMemoryNotificationChannelRepository`: the users' notification channels.
use ai_agent_boilerplate.Prelude.{
  ℕ, ◌-◌, Bool, true, false, not, Option, none, some, List, leb, ◌==◌, if◌then◌else◌, length,
  filter,
}
use ai_agent_boilerplate.Exec.{ok}
use ai_agent_boilerplate.Map
use ai_agent_boilerplate.Map.{Map, get, values, retain, remove}
use ai_agent_boilerplate.Sort.{sort_by}
use ai_agent_boilerplate.Domain.{Uuid}
use ai_agent_boilerplate.Domain.Channel.{NotificationChannel}
use ai_agent_boilerplate.Ports.{Port}

abbrev pub Channels : Type 0
Channels = Map NotificationChannel

unfoldable pub insert : NotificationChannel → Port Channels Unit
insert channel s = (ok tt, Map.insert channel.id channel s)

abbrev pub oldest_first : NotificationChannel → NotificationChannel → Bool
oldest_first a b = leb a.created_at b.created_at

unfoldable pub list_for_user : Uuid → Port Channels (List NotificationChannel)
list_for_user user_id s =
    (ok (sort_by oldest_first (filter (λ c. c.user_id == user_id) (values s))), s)

abbrev pub delete_found : Uuid → Uuid → Option NotificationChannel → Port Channels Bool
delete_found user_id id none s = (ok false, s)
delete_found user_id id (some c) s =
    if c.user_id == user_id then (ok true, remove id s) else (ok false, s)

unfoldable pub delete : Uuid → Uuid → Port Channels Bool
delete user_id id s = delete_found user_id id (get id s) s

unfoldable pub delete_all_for_user : Uuid → Port Channels ℕ
delete_all_for_user user_id s =
    let kept = retain (λ _ c. not (c.user_id == user_id)) s in (ok (length s - length kept), kept)
