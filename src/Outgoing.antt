-- ===== src/Outgoing.antt =====
-- The adapters that reach other services: backend/src/adapters/digest.rs, notify.rs and
-- dispatch/mod.rs. What they take of `reqwest`, of DNS, of `serde_json`, of `hmac` and of the
-- formatting of addresses and statuses is a parameter.
pub mod Hosts
pub mod Webhook
pub mod Channels
pub mod Agent
mod Examples
use ai_agent_boilerplate.Prelude.{ℕ, Bool, ◌&&◌, Option, List, ltb, leb}
use ai_agent_boilerplate.Text.{Text}
use ai_agent_boilerplate.Exec.{Exec}
use ai_agent_boilerplate.Domain.{Uuid}
use ai_agent_boilerplate.Domain.Job.{JobMode}
use ai_agent_boilerplate.Outgoing.Hosts.{IpAddr}

pub record TaskRequest : Type 0 where
  pub job_id : Uuid
  pub keyword : Text
  pub clarification : Option Text
  pub mode : JobMode
  pub recurring : Bool
  pub seen_urls : List Text

pub record EmbedRequest : Type 0 where
  pub document_id : Uuid
  pub name : Text
  pub content : Text

-- The body of a request: bytes, or a value that `reqwest` writes as JSON.
pub data Payload : Type 0 where
  bytes : List ℕ → Payload
  slack_message : Text → Payload
  telegram_message : Text → Text → Payload
  task : TaskRequest → Payload
  embed : EmbedRequest → Payload

pub record HttpRequest : Type 0 where
  pub url : Text
  pub headers : List (Text × Text)
  pub body : Payload

-- How a client resolves a host's name.
abbrev pub Resolver : Type 0 → Type 0
Resolver S = Text → Exec Text S (List IpAddr)

-- `client.post(..).send()`, for a client built with this resolver, or with the default one: the
-- status of the response.
abbrev pub Post : Type 0 → Type 0
Post S = Option (Resolver S) → HttpRequest → Exec Text S ℕ

-- `StatusCode::is_success`
abbrev pub is_success : ℕ → Bool
is_success status = leb 200 status && ltb status 300
