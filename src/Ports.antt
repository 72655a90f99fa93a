-- ===== src/Ports.antt =====
-- backend/src/domain/ports.rs: the traits that the use cases depend on, each as a record of its
-- methods over the state `S` that they share. A method returns `Result<A, PortError>` and the state
-- after it. The adapters fill the records, and the use cases take them as parameters.
use ai_agent_boilerplate.Prelude.{ℕ, Bool, Option, List}
use ai_agent_boilerplate.Text.{Text}
use ai_agent_boilerplate.Exec.{Exec, Result}
use ai_agent_boilerplate.Domain.{Uuid, Time}
use ai_agent_boilerplate.Domain.Job.{ResearchJob, AgentStep, JobUsage}
use ai_agent_boilerplate.Domain.Recurring.{RecurringSearch}
use ai_agent_boilerplate.Domain.SearchResult.{SearchResult}
use ai_agent_boilerplate.Domain.Channel.{NotificationChannel}
use ai_agent_boilerplate.Domain.Document.{Document, NewChunk, RetrievedChunk}
use ai_agent_boilerplate.Domain.RefreshToken.{RefreshToken}
use ai_agent_boilerplate.Domain.User.{User}
use ai_agent_boilerplate.Domain.SecurityEvent.{SecurityEvent}

-- An infrastructure failure, with its message.
pub data PortError : Type 0 where
  port_error : Text → PortError

abbrev pub Port : Type 0 → Type 0 → Type 0
Port S A = Exec PortError S A

pub record UserRepository (S : Type 0) : Type 0 where
  pub insert : User → Port S Unit
  pub find_by_email : Text → Port S (Option User)
  pub find_by_id : Uuid → Port S (Option User)
  pub delete : Uuid → Port S Unit

pub record NotificationChannelRepository (S : Type 0) : Type 0 where
  pub insert : NotificationChannel → Port S Unit
  pub list_for_user : Uuid → Port S (List NotificationChannel)
  pub delete : Uuid → Uuid → Port S Bool
  pub delete_all_for_user : Uuid → Port S ℕ

pub record JobRepository (S : Type 0) : Type 0 where
  pub insert : ResearchJob → Port S Unit
  pub update : ResearchJob → Port S Unit
  pub find : Uuid → Port S (Option ResearchJob)
  pub list_for_user : Uuid → Port S (List ResearchJob)
  pub count_created_since : Uuid → Time → Port S ℕ
  pub list_unfinished_older_than : Time → Port S (List ResearchJob)
  pub delete_finished_before : Time → Port S ℕ
  pub delete_all_for_user : Uuid → Port S ℕ
  pub store_results : Uuid → List SearchResult → Port S Unit
  pub results_for : Uuid → Port S (List SearchResult)
  pub append_step : Uuid → AgentStep → Port S Unit
  pub steps_for : Uuid → Port S (List AgentStep)
  pub clear_steps : Uuid → Port S Unit
  pub add_usage : Uuid → JobUsage → Port S Unit
  pub recent_urls_for_recurring : Uuid → ℕ → Port S (List Text)

pub record RecurringSearchRepository (S : Type 0) : Type 0 where
  pub insert : RecurringSearch → Port S Unit
  pub find : Uuid → Port S (Option RecurringSearch)
  pub list_for_user : Uuid → Port S (List RecurringSearch)
  pub delete : Uuid → Uuid → Port S Bool
  pub delete_all_for_user : Uuid → Port S ℕ
  pub list_due : Time → Port S (List RecurringSearch)
  pub mark_ran : Uuid → Time → Port S Unit

pub record RefreshTokenRepository (S : Type 0) : Type 0 where
  pub insert : RefreshToken → Port S Unit
  pub find_by_hash : Text → Port S (Option RefreshToken)
  pub mark_consumed : Uuid → Time → Port S Unit
  pub delete : Uuid → Port S Unit
  pub delete_family : Uuid → Port S Unit
  pub delete_all_for_user : Uuid → Port S ℕ
  pub delete_expired : Time → Port S ℕ

pub record SecurityAudit (S : Type 0) : Type 0 where
  pub record_event : SecurityEvent → Port S Unit
  pub list_recent : ℕ → Port S (List SecurityEvent)
  pub delete_before : Time → Port S ℕ

pub record DocumentRepository (S : Type 0) : Type 0 where
  pub insert : Document → Port S Unit
  pub list_for_user : Uuid → Port S (List Document)
  pub find : Uuid → Port S (Option Document)
  pub delete : Uuid → Uuid → Port S Bool
  pub store_chunks : Document → List NewChunk → Port S Unit
  pub mark_failed : Uuid → Text → Port S Unit
  pub retrieve : Uuid → List ℕ → ℕ → Port S (List RetrievedChunk)
  pub delete_all_for_user : Uuid → Port S ℕ

pub record JobDispatcher (S : Type 0) : Type 0 where
  pub dispatch : ResearchJob → List Text → Port S Unit

pub record EmbedDispatcher (S : Type 0) : Type 0 where
  pub dispatch_embed : Uuid → Text → Text → Port S Unit

pub record DigestEntry : Type 0 where
  pub title : Text
  pub url : Text
  pub published_at : Option Time

pub record Digest : Type 0 where
  pub recurring_search_id : Uuid
  pub job_id : Uuid
  pub keyword : Text
  pub new_count : ℕ
  pub new_results : List DigestEntry

pub record DigestSender (S : Type 0) : Type 0 where
  pub send : Text → Digest → Port S Unit

pub record ChannelNotifier (S : Type 0) : Type 0 where
  pub notify : NotificationChannel → Digest → Port S Unit

pub record PasswordHasher : Type 0 where
  pub hash : Text → Result PortError Text
  pub verify : Text → Text → Bool

pub record TokenService : Type 0 where
  pub issue : Uuid → Result PortError Text
  pub verify : Text → Option Uuid
