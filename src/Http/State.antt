-- ===== src/Http/State.antt =====
-- `AppState`: what the handlers share. The source stores the use cases, each built from these ports
-- by `AppState::new`; here a handler applies a use case to them. A handler takes the shared state
-- and returns its response and the state after it.
use ai_agent_boilerplate.Prelude.{ℕ, Bool, Option, none, some, if◌then◌else◌}
use ai_agent_boilerplate.Text.{Text, codes}
use ai_agent_boilerplate.Exec.{Exec, Result}
use ai_agent_boilerplate.Domain.{Uuid, Time}
use ai_agent_boilerplate.Domain.Job.{JobError}
use ai_agent_boilerplate.Domain.Channel.{ChannelError}
use ai_agent_boilerplate.Domain.Document.{DocumentError}
use ai_agent_boilerplate.Domain.SecurityEvent.{SecurityEvent}
use ai_agent_boilerplate.Ports.{
  UserRepository, JobRepository, RefreshTokenRepository, RecurringSearchRepository, JobDispatcher,
  DigestSender, PasswordHasher, TokenService, SecurityAudit, NotificationChannelRepository,
  ChannelNotifier, DocumentRepository, EmbedDispatcher,
}
use ai_agent_boilerplate.Http.Headers.{Bytes, Headers, bearer_token, has_internal_token}
use ai_agent_boilerplate.Http.Views.{Response, error_body}

-- Functions of the standard library's Unicode tables and of third-party crates.
pub record Library : Type 0 where
  pub lowercase : Text → Text
  pub hash : Text → Text
  pub family_text : Uuid → Text
  pub to_str : Bytes → Option Text
  pub job_error_text : JobError → Text
  pub channel_error_text : ChannelError → Text
  pub document_error_text : DocumentError → Text

pub record AppState (S : Type 0) : Type 0 where
  pub library : Library
  pub users : UserRepository S
  pub jobs : JobRepository S
  pub refresh_tokens : RefreshTokenRepository S
  pub recurring : RecurringSearchRepository S
  pub dispatcher : JobDispatcher S
  pub digests : DigestSender S
  pub hasher : PasswordHasher
  pub tokens : TokenService
  pub audit : SecurityAudit S
  pub login_throttle : Text → S → Bool × S
  pub readiness : S → Bool × S
  pub channels : NotificationChannelRepository S
  pub notifier : ChannelNotifier S
  pub email_enabled : Bool
  pub documents : DocumentRepository S
  pub embed : EmbedDispatcher S
  pub internal_token : Bytes
  pub daily_search_quota : ℕ
  pub refresh_ttl_days : ℕ

abbrev pub Handler : Type 0 → Type 0
Handler S = S → Response × S

-- What an audit event draws.
pub record EventDraw : Type 0 where
  pub id : Uuid
  pub at : Time

module _ {S : Type 0} where
  abbrev pub finish : Response → Handler S
  finish response s = (response, s)

  -- `match call.await { .. }`: the response depends on the result.
  abbrev pub handle : {E A : Type 0} → Exec E S A → (Result E A → Handler S) → Handler S
  handle m k s = k (m s).0 (m s).1

  -- `match call.await { .. }` where every case only builds a response.
  abbrev pub answer : {E A : Type 0} → Exec E S A → (Result E A → Response) → Handler S
  answer m k s = (k (m s).0, (m s).1)

  -- The audit log's failure is logged and dropped.
  unfoldable pub record_security_event : AppState S → SecurityEvent → Response → Handler S
  record_security_event state event response s = (response, (state.audit.record_event event s).1)

  abbrev pub user_of : AppState S → Option Text → Option Uuid
  user_of state none = none
  user_of state (some token) = state.tokens.verify token

  abbrev pub as_user : Option Uuid → (Uuid → Handler S) → Handler S
  as_user none k = finish (error_body 401 (codes "invalid or missing access token"))
  as_user (some user_id) k = k user_id

  -- The extractor `AuthUser`.
  unfoldable pub with_user : AppState S → Headers → (Uuid → Handler S) → Handler S
  with_user state headers k = as_user (user_of state (bearer_token state.library.to_str headers)) k

  -- `if let Some(rejection) = check_internal_token(..) { return rejection; }`
  unfoldable pub with_internal_token : AppState S → Headers → Handler S → Handler S
  with_internal_token state headers k =
      if has_internal_token state.internal_token headers
      then k
      else finish (error_body 401 (codes "invalid or missing internal token"))
