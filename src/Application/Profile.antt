-- ===== src/Application/Profile.antt =====
-- backend/src/application/profile.rs: an account and its notification channels.
use ai_agent_boilerplate.Prelude.{Bool, true, false, not, ◌&&◌, Option, List, if◌then◌else◌}
use ai_agent_boilerplate.Text.{Text}
use ai_agent_boilerplate.Exec.{◌>>=◌, ◌>>◌, Exec, pure, raise, from_result, convert, map_err, ok_or}
use ai_agent_boilerplate.Domain.{Uuid, Time}
use ai_agent_boilerplate.Domain.User.{User}
use ai_agent_boilerplate.Domain.Channel.{ChannelKind, email, ChannelError, NotificationChannel, new}
use ai_agent_boilerplate.Ports.{Port, PortError, UserRepository, NotificationChannelRepository}

pub data ProfileError : Type 0 where
  not_found email_not_configured : ProfileError
  invalid_channel : ChannelError → ProfileError
  infrastructure : PortError → ProfileError

abbrev pub is_email : ChannelKind → Bool
is_email email = true
is_email _ = false

module _ {S : Type 0} (users : UserRepository S) (channels : NotificationChannelRepository S)
    (email_enabled : Bool) where
  unfoldable pub view : Uuid → Exec ProfileError S (User × List NotificationChannel)
  view user_id = do
    found ← map_err infrastructure (users.find_by_id user_id)
    user ← ok_or not_found found
    list ← map_err infrastructure (channels.list_for_user user_id)
    pure (user, list)

  unfoldable pub add_channel :
      Uuid
      → Time
      → Uuid
      → ChannelKind
      → Text
      → Option Text
      → Exec ProfileError S NotificationChannel
  add_channel id now user_id kind target secret =
      if is_email kind && not email_enabled then raise email_not_configured else do
        channel ← from_result (convert invalid_channel (new id now user_id kind target secret))
        map_err infrastructure (channels.insert channel)
        pure channel

  unfoldable pub remove_channel : Uuid → Uuid → Port S Bool
  remove_channel user_id id = channels.delete user_id id
