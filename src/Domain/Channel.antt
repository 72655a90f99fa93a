-- ===== src/Domain/Channel.antt =====
-- backend/src/domain/notification_channel.rs: where a user receives digests.
pub mod Checks
use ai_agent_boilerplate.Prelude.{
  ℕ, Bool, false, not, ◌&&◌, Option, none, some, ltb, if◌then◌else◌, is_some, length,
}
use ai_agent_boilerplate.Exec.{Result, ok, err}
use ai_agent_boilerplate.Text.{
  Text, codes, trim, is_empty, starts_with, contains_char, split_once, text_eq,
}
use ai_agent_boilerplate.Domain.{Uuid, Time, now_utc}

abbrev pub max_target_len : ℕ
max_target_len = 2_048

abbrev pub max_secret_len : ℕ
max_secret_len = 512

pub data ChannelKind : Type 0 where
  slack telegram email : ChannelKind

-- `ChannelKind::as_str`
unfoldable pub as_str : ChannelKind → Text
as_str slack = codes "slack"
as_str telegram = codes "telegram"
as_str email = codes "email"

-- `ChannelKind::parse`
unfoldable pub parse : Text → Option ChannelKind
parse value =
    if text_eq value (codes "slack")
    then some slack
    else if text_eq value (codes "telegram")
    then some telegram
    else if text_eq value (codes "email")
    then some email
    else none

pub data ChannelError : Type 0 where
  unknown_kind empty_target target_too_long secret_too_long : ChannelError
  invalid_slack_url missing_telegram_token invalid_email : ChannelError

pub record NotificationChannel : Type 0 where
  pub id : Uuid
  pub user_id : Uuid
  pub kind : ChannelKind
  pub target : Text
  pub secret : Option Text
  pub created_at : Time

-- `secret.map(str::trim).filter(|s| !s.is_empty())`
unfoldable pub clean_secret : Option Text → Option Text
clean_secret none = none
clean_secret (some raw) = let s = trim raw in if is_empty s then none else some s

abbrev pub is_too_long : Option Text → Bool
is_too_long none = false
is_too_long (some s) = ltb max_secret_len (length s)

abbrev pub is_address_parts : Option (Text × Text) → Bool
is_address_parts none = false
is_address_parts (some (local, domain)) =
    not (is_empty local) && contains_char b'.' domain && not (starts_with domain (codes "."))

-- The sanity check of an email target: one split at the first `@`.
unfoldable pub is_address : Text → Bool
is_address target = is_address_parts (split_once b'@' target)

-- The `match kind`: the error of a target and secret that do not suit the kind.
unfoldable pub kind_error : ChannelKind → Text → Option Text → Option ChannelError
kind_error slack target secret =
    if starts_with target (codes "https://") then none else some invalid_slack_url
kind_error telegram target secret = if is_some secret then none else some missing_telegram_token
kind_error email target secret = if is_address target then none else some invalid_email

abbrev or_error :
    NotificationChannel → Option ChannelError → Result ChannelError NotificationChannel
or_error channel none = ok channel
or_error channel (some e) = err e

unfoldable pub new :
    Uuid → Time → Uuid → ChannelKind → Text → Option Text → Result ChannelError NotificationChannel
new id now user_id kind target secret =
    let t = trim target in
    let s = clean_secret secret in
    if is_empty t
    then err empty_target
    else if ltb max_target_len (length t)
    then err target_too_long
    else if is_too_long s
    then err secret_too_long
    else or_error
        (record {
          id = id;
          user_id = user_id;
          kind = kind;
          target = t;
          secret = s;
          created_at = now_utc now;
        })
        (kind_error kind t s)
