-- ===== src/Domain/Channel/Checks.antt =====
-- What a saved channel satisfies, and the names of the kinds.
use ai_agent_boilerplate.Prelude.{◌≡◌, refl, true, Option, none, some, arith, is_some}
use ai_agent_boilerplate.Exec.{ok}
use ai_agent_boilerplate.Text.{Text, codes, starts_with, text_eq, text_eq→≡}
use ai_agent_boilerplate.Text.Trim.{trim_idem}
use ai_agent_boilerplate.Domain.{Uuid, Time}
use ai_agent_boilerplate.Domain.Job.Lifecycle.{IsClean}
use ai_agent_boilerplate.Domain.Channel.{
  max_target_len, max_secret_len, ChannelKind, slack, telegram, email, as_str, parse,
  NotificationChannel, clean_secret, is_address, kind_error, new,
}

-- What a delivery to a channel of this kind needs.
abbrev Suits : ChannelKind → Text → Option Text → Type 0
Suits slack target secret = starts_with target (codes "https://") ≡ true
Suits telegram target secret = is_some secret ≡ true
Suits email target secret = is_address target ≡ true

abbrev IsSecret : Option Text → Type 0
IsSecret none = Unit
IsSecret (some s) = IsClean max_secret_len s

pub record IsValid (c : NotificationChannel) : Type 0 where
  pub target_clean : IsClean max_target_len c.target
  pub secret_clean : IsSecret c.secret
  pub suits : Suits c.kind c.target c.secret

-- A channel that new accepts has a clean target and secret within their bounds, and what its
-- kind needs: an https URL for Slack, a token for Telegram, an address for email.
pub channel-IsValid :
    (id : Uuid) (now : Time) (user_id : Uuid) (kind : ChannelKind) (target : Text)
    (secret : Option Text) {c : NotificationChannel}
    → new id now user_id kind target secret ≡ ok c
    → IsValid c
unfolding new kind_error clean_secret
channel-IsValid id now user_id slack target none e = ground (arith, trim_idem target)
channel-IsValid id now user_id telegram target none e = ground (arith, trim_idem target)
channel-IsValid id now user_id email target none e = ground (arith, trim_idem target)
channel-IsValid id now user_id slack target (some s) e =
    ground (arith, trim_idem target, trim_idem s)
channel-IsValid id now user_id telegram target (some s) e =
    ground (arith, trim_idem target, trim_idem s)
channel-IsValid id now user_id email target (some s) e =
    ground (arith, trim_idem target, trim_idem s)

parse_name : (k : ChannelKind) → parse (as_str k) ≡ some k
unfolding parse as_str text_eq
parse_name slack = refl
parse_name telegram = refl
parse_name email = refl

name_of_parsed : (value : Text) (k : ChannelKind) → parse value ≡ some k → value ≡ as_str k
unfolding parse as_str
name_of_parsed value k e = ground (
  arith,
  text_eq→≡ value (codes "slack"),
  text_eq→≡ value (codes "telegram"),
  text_eq→≡ value (codes "email"),
)

-- The name of a channel kind parses back to the kind, and a text that parses is the name of what
-- it parses to.
pub parse-as_str :
    ((k : ChannelKind) → parse (as_str k) ≡ some k)
    × ((value : Text) (k : ChannelKind) → parse value ≡ some k → value ≡ as_str k)
parse-as_str = (parse_name, name_of_parsed)
