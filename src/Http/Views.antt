-- ===== src/Http/Views.antt =====
-- The responses: their status, the cookie that they set, and the JSON body as its view.
use ai_agent_boilerplate.Prelude.{ℕ, Bool, Option, none, List}
use ai_agent_boilerplate.Text.{Text, codes}
use ai_agent_boilerplate.Domain.{Uuid, Time}
use ai_agent_boilerplate.Domain.Job.{ResearchJob, JobMode, JobStatus, JobUsage, AgentStep}
use ai_agent_boilerplate.Domain.SearchResult.{SearchResult}
use ai_agent_boilerplate.Domain.Recurring.{RecurringSearch}
use ai_agent_boilerplate.Domain.Channel
use ai_agent_boilerplate.Domain.Channel.{NotificationChannel}
use ai_agent_boilerplate.Domain.Document
use ai_agent_boilerplate.Domain.Document.{Document, RetrievedChunk}

pub record JobView : Type 0 where
  pub id : Uuid
  pub keyword : Text
  pub mode : JobMode
  pub status : JobStatus
  pub error : Option Text
  pub question : Option Text
  pub answer : Option Text
  pub recurring_search_id : Option Uuid
  pub usage : JobUsage
  pub created_at : Time
  pub completed_at : Option Time

abbrev pub job_view : ResearchJob → JobView
job_view job = record {
  id = job.id;
  keyword = job.keyword;
  mode = job.mode;
  status = job.status;
  error = job.error;
  question = job.question;
  answer = job.answer;
  recurring_search_id = job.recurring_search_id;
  usage = job.usage;
  created_at = job.created_at;
  completed_at = job.completed_at;
}

pub record JobDetailView : Type 0 where
  pub job : JobView
  pub results : List SearchResult
  pub steps : List AgentStep

abbrev pub job_detail : ResearchJob → List SearchResult → List AgentStep → JobDetailView
job_detail job results steps = record { job = job_view job; results = results; steps = steps }

pub record RecurringView : Type 0 where
  pub id : Uuid
  pub keyword : Text
  pub mode : JobMode
  pub interval_minutes : ℕ
  pub webhook_url : Option Text
  pub created_at : Time
  pub last_run_at : Option Time

abbrev pub recurring_view : RecurringSearch → RecurringView
recurring_view search = record {
  id = search.id;
  keyword = search.keyword;
  mode = search.mode;
  interval_minutes = search.interval_minutes;
  webhook_url = search.webhook_url;
  created_at = search.created_at;
  last_run_at = search.last_run_at;
}

-- The secret is left out.
pub record ChannelView : Type 0 where
  pub id : Uuid
  pub kind : Text
  pub target : Text
  pub created_at : Time

abbrev pub channel_view : NotificationChannel → ChannelView
channel_view channel = record {
  id = channel.id;
  kind = Channel.as_str channel.kind;
  target = channel.target;
  created_at = channel.created_at;
}

pub record ProfileResponse : Type 0 where
  pub email : Text
  pub created_at : Time
  pub channels : List ChannelView
  pub email_enabled : Bool

pub record DocumentView : Type 0 where
  pub id : Uuid
  pub name : Text
  pub status : Text
  pub error : Option Text
  pub created_at : Time

abbrev pub document_view : Document → DocumentView
document_view document = record {
  id = document.id;
  name = document.name;
  status = Document.as_str document.status;
  error = document.error;
  created_at = document.created_at;
}

pub data Body : Type 0 where
  no_body : Body
  error_message : Text → Body
  access_token : Text → Body
  account : Uuid → Text → Body
  profile : ProfileResponse → Body
  channel : ChannelView → Body
  documents : List DocumentView → Body
  document : DocumentView → Body
  chunks : List RetrievedChunk → Body
  job_created : Uuid → Body
  jobs : List JobView → Body
  job_detail_view : JobDetailView → Body
  searches : List RecurringView → Body
  search : RecurringView → Body
  plain : Text → Body
  event_stream : Body

pub record Response : Type 0 where
  pub status : ℕ
  pub set_cookie : Option Text
  pub body : Body

abbrev pub respond : ℕ → Body → Response
respond status body = record { status = status; set_cookie = none; body = body }

abbrev pub no_content : Response
no_content = respond 204 no_body

abbrev pub error_body : ℕ → Text → Response
error_body status message = respond status (error_message message)

-- A failure of the infrastructure: the error is logged, and the client gets a fixed message.
abbrev pub internal_error : Response
internal_error = error_body 500 (codes "internal error")
