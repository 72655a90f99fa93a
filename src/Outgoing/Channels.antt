-- ===== src/Outgoing/Channels.antt =====
-- notify.rs: a digest as a message to a user's channels: Slack, Telegram and e-mail.
use ai_agent_boilerplate.Prelude.{ℕ, Bool, ◌&&◌, none, List, [], ◌∷◌, ◌++◌, ◌==◌, if◌then◌else◌}
use ai_agent_boilerplate.Text.{Text, codes, is_empty}
use ai_agent_boilerplate.Text.Decimal.{decimal}
use ai_agent_boilerplate.Exec.{◌>>=◌, pure, raise, ok_or, map_err}
use ai_agent_boilerplate.Domain.Channel.{NotificationChannel, slack, telegram, email, ChannelKind}
use ai_agent_boilerplate.Ports.{Port, port_error, Digest, DigestEntry, ChannelNotifier}
use ai_agent_boilerplate.Outgoing.{slack_message, telegram_message, is_success}
use ai_agent_boilerplate.Outgoing.Webhook
use ai_agent_boilerplate.Outgoing.Webhook.{resolver_of, prefixed}

unfoldable pub entry_lines : List DigestEntry → Text
entry_lines [] = []
entry_lines (entry ∷ entries) =
    codes "\n• " ++ (entry.title ++ (codes " — " ++ (entry.url ++ entry_lines entries)))

unfoldable pub digest_to_text : Digest → Text
unfolding entry_lines
digest_to_text digest =
    codes "New results for “"
    ++ (digest.keyword
        ++ (codes "” ("
            ++ (decimal digest.new_count ++ (codes "):" ++ entry_lines digest.new_results))))

-- `trim_end_matches(c)`
unfoldable pub trim_end_matches : ℕ → Text → Text
trim_end_matches c [] = []
trim_end_matches c (d ∷ s) =
    let rest = trim_end_matches c s in if d == c && is_empty rest then [] else d ∷ rest

-- `EmailTransport`: the recipient, the subject and the body.
pub record EmailTransport (S : Type 0) : Type 0 where
  pub send_email : Text → Text → Text → Port S Unit

-- The transport where SMTP is not configured.
abbrev pub disabled_email_transport : {S : Type 0} → EmailTransport S
disabled_email_transport = record {
  send_email = λ to subject body. raise (port_error (codes "email delivery is not configured"));
}

module _ {S : Type 0} (library : Webhook.Library S) where
  abbrev pub succeeded : Text → ℕ → Port S Unit
  succeeded prefix status =
      if is_success status then pure tt else raise (prefixed prefix (library.status_text status))

  unfoldable pub notify_slack : Bool → NotificationChannel → Digest → Port S Unit
  unfolding digest_to_text
  notify_slack allow_private channel digest = do
    status ← map_err (prefixed (codes "slack unreachable: ")) (
        library.post (resolver_of library allow_private) (record {
          url = channel.target;
          headers = [];
          body = slack_message (digest_to_text digest);
        }))
    succeeded (codes "slack returned ") status

  unfoldable pub notify_telegram : Text → NotificationChannel → Digest → Port S Unit
  unfolding trim_end_matches digest_to_text
  notify_telegram base_url channel digest = do
    token ← ok_or (port_error (codes "telegram channel has no bot token")) channel.secret
    status ← map_err (prefixed (codes "telegram unreachable: ")) (
        library.post none (record {
          url = trim_end_matches b'/' base_url ++ (codes "/bot" ++ (token ++ codes "/sendMessage"));
          headers = [];
          body = telegram_message channel.target (digest_to_text digest);
        }))
    succeeded (codes "telegram returned ") status

  unfoldable pub notify_email : EmailTransport S → NotificationChannel → Digest → Port S Unit
  unfolding digest_to_text
  notify_email transport channel digest =
      transport.send_email channel.target
        (codes "New results for “" ++ (digest.keyword ++ codes "”")) (digest_to_text digest)

module _ {S : Type 0} (slack_notifier telegram_notifier email_notifier : ChannelNotifier S) where
  abbrev pub notifier_of : ChannelKind → ChannelNotifier S
  notifier_of slack = slack_notifier
  notifier_of telegram = telegram_notifier
  notifier_of email = email_notifier

  -- `DispatchingChannelNotifier`
  unfoldable pub notify : NotificationChannel → Digest → Port S Unit
  notify channel digest = (notifier_of channel.kind).notify channel digest

abbrev pub noop_channel_notifier : {S : Type 0} → ChannelNotifier S
noop_channel_notifier = record { notify = λ channel digest. pure tt }
