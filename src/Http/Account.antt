-- ===== src/Http/Account.antt =====
-- The handlers of the profile and of the notification channels.
use ai_agent_boilerplate.Prelude.{Bool, true, false, Option, none, some, List, map}
use ai_agent_boilerplate.Text.{Text, codes}
use ai_agent_boilerplate.Exec.{Result, ok, err}
use ai_agent_boilerplate.Domain.{Uuid, Time}
use ai_agent_boilerplate.Domain.User.{User}
use ai_agent_boilerplate.Domain.Channel
use ai_agent_boilerplate.Domain.Channel.{NotificationChannel, ChannelKind}
use ai_agent_boilerplate.Ports.{PortError}
use ai_agent_boilerplate.Application.Profile
use ai_agent_boilerplate.Application.Profile.{
  ProfileError, not_found, email_not_configured, invalid_channel,
}
use ai_agent_boilerplate.Http.Headers.{Headers}
use ai_agent_boilerplate.Http.Views.{
  Response, respond, no_content, error_body, internal_error, profile, channel, channel_view,
}
use ai_agent_boilerplate.Http.State.{AppState, Handler, finish, answer, with_user}

pub record CreateChannelRequest : Type 0 where
  pub kind : Text
  pub target : Text
  pub secret : Option Text

abbrev pub removed_channel : Result PortError Bool → Response
removed_channel (ok true) = no_content
removed_channel (ok false) = error_body 404 (codes "channel not found")
removed_channel (err e) = internal_error

module _ {S : Type 0} (state : AppState S) where
  abbrev pub viewed : Result ProfileError (User × List NotificationChannel) → Response
  viewed (ok (user, channels)) = respond 200 (
      profile (record {
        email = user.email;
        created_at = user.created_at;
        channels = map channel_view channels;
        email_enabled = state.email_enabled;
      }))
  viewed (err not_found) = error_body 404 (codes "account not found")
  viewed (err email_not_configured) = internal_error
  viewed (err (invalid_channel e)) = internal_error
  viewed (err (Profile.infrastructure e)) = internal_error

  unfoldable pub get_profile : Headers → Handler S
  get_profile headers =
      with_user state headers λ user_id.
        answer (Profile.view state.users state.channels state.email_enabled user_id) viewed

  abbrev pub added_channel : Result ProfileError NotificationChannel → Response
  added_channel (ok added) = respond 201 (channel (channel_view added))
  added_channel (err (invalid_channel e)) = error_body 422 (state.library.channel_error_text e)
  added_channel (err email_not_configured) =
      error_body 422 (codes "email delivery is not configured on this server")
  added_channel (err not_found) = internal_error
  added_channel (err (Profile.infrastructure e)) = internal_error

  abbrev pub create_parsed :
      Uuid → Time → Uuid → CreateChannelRequest → Option ChannelKind → Handler S
  create_parsed id now user_id body none = finish (error_body 422 (codes "unknown channel kind"))
  create_parsed id now user_id body (some kind) =
      answer
        (Profile.add_channel state.users state.channels state.email_enabled id now user_id kind
          body.target body.secret)
        added_channel

  unfoldable pub create_channel : Uuid → Time → Headers → CreateChannelRequest → Handler S
  create_channel id now headers body =
      with_user state headers λ user_id. create_parsed id now user_id body (Channel.parse body.kind)

  unfoldable pub delete_channel : Headers → Uuid → Handler S
  delete_channel headers id = with_user state headers λ user_id.
      answer (Profile.remove_channel state.users state.channels state.email_enabled user_id id)
        removed_channel
