-- ===== src/Startup.antt =====
-- backend/src/main.rs, `serve`: which adapters a configuration wires up, and the decorator of the
-- audit log of adapters/security_metrics.rs.
pub mod Tokens
mod Examples
use ai_agent_boilerplate.Prelude.{ℕ, Bool, true, false, Option, none, some}
use ai_agent_boilerplate.Text.Utf8.{as_bytes}
use ai_agent_boilerplate.Text.{Text, codes}
use ai_agent_boilerplate.Domain.{Uuid}
use ai_agent_boilerplate.Ports.{
  UserRepository, JobRepository, RefreshTokenRepository, RecurringSearchRepository, SecurityAudit,
  NotificationChannelRepository, DocumentRepository, JobDispatcher, EmbedDispatcher, PasswordHasher,
  TokenService, ChannelNotifier,
}
use ai_agent_boilerplate.Http.State
use ai_agent_boilerplate.Http.State.{AppState}
use ai_agent_boilerplate.Http.Router.{Router}
use ai_agent_boilerplate.Config.{AppConfig, SmtpConfig}
use ai_agent_boilerplate.Background.{Settings, LeaderLock}
use ai_agent_boilerplate.Outgoing.Webhook
use ai_agent_boilerplate.Outgoing.Webhook.{webhook_digest_sender}
use ai_agent_boilerplate.Outgoing.Channels
use ai_agent_boilerplate.Outgoing.Channels.{EmailTransport, disabled_email_transport}
use ai_agent_boilerplate.Outgoing.Agent
use ai_agent_boilerplate.Outgoing.Agent.{noop_job_dispatcher, noop_embed_dispatcher}

-- The repositories of a database, or those in memory.
pub record Repos (S : Type 0) : Type 0 where
  pub users : UserRepository S
  pub jobs : JobRepository S
  pub refresh_tokens : RefreshTokenRepository S
  pub recurring : RecurringSearchRepository S
  pub audit : SecurityAudit S
  pub readiness : S → Bool × S
  pub channels : NotificationChannelRepository S
  pub documents : DocumentRepository S
  pub leader : LeaderLock S

-- What the wiring takes of other packages: the repositories of a database by its URL, the limiters
-- by their limit, scope and URL, the SMTP transport where its settings are valid, and the rest.
pub record Environment (S : Type 0) : Type 0 where
  pub postgres : Text → Repos S
  pub memory : Repos S
  pub limiter : ℕ → Text → Option Text → Text → S → Bool × S
  pub smtp_transport : SmtpConfig → Option (EmailTransport S)
  pub count_event : Text → S → S
  pub library : State.Library
  pub http : Webhook.Library S
  pub uuid_text : Uuid → Text
  pub hasher : PasswordHasher
  pub jwt : Text → ℕ → TokenService

-- `MeteredSecurityAudit`: counts every event by its kind, then delegates.
abbrev pub metered : {S : Type 0} → (Text → S → S) → SecurityAudit S → SecurityAudit S
metered count inner = record {
  record_event = λ event s. inner.record_event event (count event.kind s);
  list_recent = inner.list_recent;
  delete_before = inner.delete_before;
}

module _ {S : Type 0} (environment : Environment S) where
  abbrev pub repos_of : Option Text → Repos S
  repos_of none = environment.memory
  repos_of (some url) = environment.postgres url

  abbrev pub dispatcher_of : Option Text → Text → JobDispatcher S
  dispatcher_of none token = noop_job_dispatcher
  dispatcher_of (some url) token = record {
    dispatch = Agent.dispatch environment.http environment.uuid_text url token;
  }

  abbrev pub embed_of : Option Text → Text → EmbedDispatcher S
  embed_of none token = noop_embed_dispatcher
  embed_of (some url) token = record {
    dispatch_embed = Agent.dispatch_embed environment.http environment.uuid_text url token;
  }

  -- An invalid SMTP configuration disables e-mail.
  abbrev pub transport_or_disabled : Option (EmailTransport S) → EmailTransport S × Bool
  transport_or_disabled none = (disabled_email_transport, false)
  transport_or_disabled (some transport) = (transport, true)

  abbrev pub email_of : Option SmtpConfig → EmailTransport S × Bool
  email_of none = (disabled_email_transport, false)
  email_of (some smtp) = transport_or_disabled (environment.smtp_transport smtp)

  abbrev pub notifier_of : Bool → EmailTransport S → ChannelNotifier S
  notifier_of allow_private transport = record {
    notify =
        Channels.notify (record { notify = Channels.notify_slack environment.http allow_private })
          (record {
            notify = Channels.notify_telegram environment.http (codes "https://api.telegram.org");
          })
          (record { notify = Channels.notify_email environment.http transport });
  }

  abbrev pub settings_of : AppConfig → Settings
  settings_of config = record {
    job_timeout_minutes = config.job_timeout_minutes;
    daily_search_quota = config.daily_search_quota;
    data_retention_days = config.data_retention_days;
    security_retention_days = config.security_event_retention_days;
  }

  abbrev pub state_of : AppConfig → AppState S
  state_of config =
      let repos = repos_of config.database_url in
      let email = email_of config.smtp in
      record {
        library = environment.library;
        users = repos.users;
        jobs = repos.jobs;
        refresh_tokens = repos.refresh_tokens;
        recurring = repos.recurring;
        dispatcher = dispatcher_of config.agent_api_url config.internal_token;
        digests =
            webhook_digest_sender environment.http config.digest_signing_secret
              config.digest_allow_private_webhooks;
        hasher = environment.hasher;
        tokens = environment.jwt config.jwt_secret 15;
        audit = metered environment.count_event repos.audit;
        login_throttle =
            environment.limiter config.rate_limits.login_per_minute (codes "login")
              config.rate_limits.redis_url;
        readiness = repos.readiness;
        channels = repos.channels;
        notifier = notifier_of config.digest_allow_private_webhooks email.0;
        email_enabled = email.1;
        documents = repos.documents;
        embed = embed_of config.agent_api_url config.internal_token;
        internal_token = as_bytes config.internal_token;
        daily_search_quota = config.daily_search_quota;
        refresh_ttl_days = config.refresh_token_days;
      }

  -- `router_with_limits(state, config.rate_limits)`
  unfoldable pub router_of : AppConfig → Router S
  router_of config = record {
    state = state_of config;
    auth_limiter =
        environment.limiter config.rate_limits.auth_per_minute (codes "auth")
          config.rate_limits.redis_url;
    api_limiter =
        environment.limiter config.rate_limits.api_per_minute (codes "api")
          config.rate_limits.redis_url;
  }
