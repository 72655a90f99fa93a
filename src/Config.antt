-- ===== src/Config.antt =====
-- backend/src/config.rs: the configuration that main.rs reads from the environment, whose variables
-- `lookup` returns.
pub mod Startup
pub mod Fixtures
mod Examples
use ai_agent_boilerplate.Prelude.{
  ℕ, ◌^◌, max, Bool, true, false, not, ◌&&◌, Option, none, some, List, [], ◌∷◌, ◌++◌, ltb,
  if◌then◌else◌, filter, any,
}
use ai_agent_boilerplate.Text.{Text, codes, is_empty, text_eq, byte_len}
use ai_agent_boilerplate.Text.Decimal.{parse_below}
use ai_agent_boilerplate.Exec.{Result, ok, err}

abbrev pub placeholders : List Text
placeholders = codes "change-me" ∷ codes "insecure-dev-secret" ∷ []

abbrev pub is_placeholder : Text → Bool
is_placeholder v = any (text_eq v) placeholders

abbrev pub is_set : Option Text → Bool
is_set none = false
is_set (some v) = not (is_empty v) && not (is_placeholder v)

abbrev pub required_in_production : List Text
required_in_production =
    codes "JWT_SECRET"
    ∷ codes "INTERNAL_API_TOKEN"
    ∷ codes "DATABASE_URL"
    ∷ codes "AGENT_API_URL"
    ∷ []

abbrev pub unwrap_or {ℓ} : {A : Type ℓ} → A → Option A → A
unwrap_or a none = a
unwrap_or a (some b) = b

abbrev pub nonempty : Option Text → Option Text
nonempty none = none
nonempty (some v) = if is_empty v then none else some v

abbrev pub parse_option : ℕ → Option Text → Option ℕ
parse_option bound none = none
parse_option bound (some v) = parse_below bound v

-- A warning where the variable has no value.
abbrev pub warn_missing : Option Text → Text → List Text
warn_missing none warning = warning ∷ []
warn_missing (some v) warning = []

abbrev pub min_secret_len : ℕ
min_secret_len = 32

abbrev pub too_short : Text → Bool
too_short v = ltb (byte_len v) min_secret_len && not (is_placeholder v)

abbrev pub warn_if : Bool → Text → List Text
warn_if true warning = warning ∷ []
warn_if false warning = []

pub record SmtpConfig : Type 0 where
  pub host : Text
  pub port : ℕ
  pub username : Text
  pub password : Text
  pub from_address : Text

pub record RateLimitConfig : Type 0 where
  pub auth_per_minute : ℕ
  pub api_per_minute : ℕ
  pub login_per_minute : ℕ
  pub redis_url : Option Text

pub record AppConfig : Type 0 where
  pub jwt_secret : Text
  pub internal_token : Text
  pub agent_api_url : Option Text
  pub database_url : Option Text
  pub job_timeout_minutes : ℕ
  pub database_max_connections : ℕ
  pub scheduler_tick_seconds : ℕ
  pub daily_search_quota : ℕ
  pub rate_limits : RateLimitConfig
  pub refresh_token_days : ℕ
  pub bind_addr : Text
  pub digest_signing_secret : Option Text
  pub digest_allow_private_webhooks : Bool
  pub security_event_retention_days : ℕ
  pub data_retention_days : ℕ
  pub smtp : Option SmtpConfig
  pub warnings : List Text

abbrev pub is_text : Text → Option Text → Bool
is_text t none = false
is_text t (some v) = text_eq v t

module _ (lookup : Text → Option Text) where
  unfoldable pub missing_required : List Text → List Text
  missing_required names = filter (λ name. not (is_set (lookup name))) names

  abbrev pub get : Text → Option Text
  get name = nonempty (lookup name)

  unfoldable pub get_u32 : Text → ℕ → ℕ
  get_u32 name default = unwrap_or default (parse_option (2 ^ 32) (get name))

  abbrev pub smtp_of : Option Text → Option Text → Option SmtpConfig
  smtp_of (some host) (some from_address) = some (record {
    host = host;
    port = unwrap_or 587 (parse_option (2 ^ 16) (get (codes "SMTP_PORT")));
    username = unwrap_or [] (get (codes "SMTP_USERNAME"));
    password = unwrap_or [] (get (codes "SMTP_PASSWORD"));
    from_address = from_address;
  })
  smtp_of (some host) none = none
  smtp_of none from_address = none

  abbrev pub smtp_warning : Option Text → Option Text → List Text
  smtp_warning (some host) none =
      codes "SMTP_HOST set but SMTP_FROM missing — email channel disabled" ∷ []
  smtp_warning (some host) (some from_address) = []
  smtp_warning none from_address = []

  abbrev pub jwt_secret_of : Text
  jwt_secret_of = unwrap_or (codes "insecure-dev-secret") (get (codes "JWT_SECRET"))

  abbrev pub internal_token_of : Text
  internal_token_of = unwrap_or (codes "change-me") (get (codes "INTERNAL_API_TOKEN"))

  unfoldable pub warnings_of : List Text
  warnings_of =
      warn_missing (get (codes "JWT_SECRET"))
        (codes "JWT_SECRET not set, using an insecure development default")
      ++ (warn_missing (get (codes "AGENT_API_URL"))
            (codes "AGENT_API_URL not set, jobs will not be dispatched (noop)")
          ++ (warn_missing (get (codes "DATABASE_URL"))
                (codes "DATABASE_URL not set, using in-memory persistence (data lost on restart)")
              ++ (warn_if (too_short jwt_secret_of)
                    (codes "JWT_SECRET is shorter than 32 characters — use a long, random value")
                  ++ (warn_if (too_short internal_token_of) (
                        codes
                          "INTERNAL_API_TOKEN is shorter than 32 characters — use a long, random value")
                      ++ smtp_warning (get (codes "SMTP_HOST")) (get (codes "SMTP_FROM"))))))

  unfoldable pub config_of : AppConfig
  unfolding get_u32 warnings_of
  config_of = record {
    jwt_secret = jwt_secret_of;
    internal_token = internal_token_of;
    agent_api_url = get (codes "AGENT_API_URL");
    database_url = get (codes "DATABASE_URL");
    job_timeout_minutes = get_u32 (codes "JOB_TIMEOUT_MINUTES") 15;
    database_max_connections = max (get_u32 (codes "DATABASE_MAX_CONNECTIONS") 10) 1;
    scheduler_tick_seconds = max (get_u32 (codes "SCHEDULER_TICK_SECONDS") 60) 1;
    daily_search_quota = get_u32 (codes "DAILY_SEARCH_QUOTA") 20;
    rate_limits = record {
      auth_per_minute = get_u32 (codes "RATE_LIMIT_AUTH_PER_MINUTE") 10;
      api_per_minute = get_u32 (codes "RATE_LIMIT_API_PER_MINUTE") 120;
      login_per_minute = get_u32 (codes "LOGIN_MAX_ATTEMPTS_PER_MINUTE") 10;
      redis_url = get (codes "RATE_LIMIT_REDIS_URL");
    };
    refresh_token_days = get_u32 (codes "REFRESH_TOKEN_DAYS") 30;
    bind_addr = unwrap_or (codes "0.0.0.0:8000") (get (codes "BIND_ADDR"));
    digest_signing_secret = get (codes "DIGEST_SIGNING_SECRET");
    digest_allow_private_webhooks =
        is_text (codes "true") (get (codes "DIGEST_ALLOW_PRIVATE_WEBHOOKS"));
    security_event_retention_days = get_u32 (codes "SECURITY_EVENT_RETENTION_DAYS") 90;
    data_retention_days = get_u32 (codes "DATA_RETENTION_DAYS") 0;
    smtp = smtp_of (get (codes "SMTP_HOST")) (get (codes "SMTP_FROM"));
    warnings = warnings_of;
  }

  abbrev pub unless_missing : List Text → Result (List Text) AppConfig
  unless_missing [] = ok config_of
  unless_missing (name ∷ names) = err (name ∷ names)

  unfoldable pub from_lookup : Result (List Text) AppConfig
  unfolding missing_required config_of
  from_lookup =
      if is_text (codes "production") (lookup (codes "APP_ENV"))
      then unless_missing (missing_required required_in_production)
      else ok config_of
