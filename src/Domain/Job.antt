-- ===== src/Domain/Job.antt =====
-- backend/src/domain/job.rs: a research job, its modes, its journal entries and its spend.
pub mod Lifecycle
pub mod Graph
pub mod Retries
mod Examples
use ai_agent_boilerplate.Prelude.{
  ℕ, ◌+◌, ◌%◌, ◌^◌, Bool, true, false, not, ◌||◌, Option, none, some, ltb, if◌then◌else◌, length,
}
use ai_agent_boilerplate.Exec.{Result, ok, err, Exec}
use ai_agent_boilerplate.Text.{Text, trim, is_empty}
use ai_agent_boilerplate.Domain.{Uuid, Time, now_utc}

pub data JobStatus : Type 0 where
  pending running awaiting_input completed failed : JobStatus

pub data JobMode : Type 0 where
  workflow agent : JobMode

-- `i32` and `i64` are two's complement bit patterns.
pub record AgentStep : Type 0 where
  pub seq : ℕ
  pub kind : Text
  pub detail : Text
  pub reason : Text
  pub new_hits : ℕ

-- `cost_usd`, an `f64`, is its bit pattern; the addition of two is a parameter of `add`.
pub record JobUsage : Type 0 where
  pub llm_calls : ℕ
  pub llm_input_tokens : ℕ
  pub llm_output_tokens : ℕ
  pub search_calls : ℕ
  pub cost_usd : ℕ

abbrev pub no_usage : JobUsage
no_usage = record {
  llm_calls = 0;
  llm_input_tokens = 0;
  llm_output_tokens = 0;
  search_calls = 0;
  cost_usd = 0;
}

abbrev pub add_i32 : ℕ → ℕ → ℕ
add_i32 a b = (a + b) % 2 ^ 32

abbrev pub add_i64 : ℕ → ℕ → ℕ
add_i64 a b = (a + b) % 2 ^ 64

-- `JobUsage::add`; the integers wrap, as in a release build.
unfoldable pub add : (ℕ → ℕ → ℕ) → JobUsage → JobUsage → JobUsage
add add_f64 u other = record {
  llm_calls = add_i32 u.llm_calls other.llm_calls;
  llm_input_tokens = add_i64 u.llm_input_tokens other.llm_input_tokens;
  llm_output_tokens = add_i64 u.llm_output_tokens other.llm_output_tokens;
  search_calls = add_i32 u.search_calls other.search_calls;
  cost_usd = add_f64 u.cost_usd other.cost_usd;
}

abbrev pub max_keyword_len : ℕ
max_keyword_len = 200

abbrev pub max_answer_len : ℕ
max_answer_len = 2_000

pub data JobError : Type 0 where
  empty_keyword keyword_too_long invalid_interval invalid_webhook_url webhook_url_too_long :
      JobError
  empty_question empty_answer answer_too_long not_awaiting_input : JobError

pub record ResearchJob : Type 0 where
  pub id : Uuid
  pub user_id : Uuid
  pub keyword : Text
  pub mode : JobMode
  pub status : JobStatus
  pub error : Option Text
  pub question : Option Text
  pub answer : Option Text
  pub recurring_search_id : Option Uuid
  pub usage : JobUsage
  pub created_at : Time
  pub completed_at : Option Time

abbrev pub fresh_job : Uuid → Time → Uuid → Text → ResearchJob
fresh_job id now user_id keyword = record {
  id = id;
  user_id = user_id;
  keyword = keyword;
  mode = workflow;
  status = pending;
  error = none;
  question = none;
  answer = none;
  recurring_search_id = none;
  usage = no_usage;
  created_at = now_utc now;
  completed_at = none;
}

-- `ResearchJob::new`, at the identifier and the clock value that it draws.
unfoldable pub new : Uuid → Time → Uuid → Text → Result JobError ResearchJob
new id now user_id keyword =
    let k = trim keyword in
    if is_empty k
    then err empty_keyword
    else if ltb max_keyword_len (length k)
    then err keyword_too_long
    else ok (fresh_job id now user_id k)

unfoldable pub with_mode : JobMode → ResearchJob → ResearchJob
with_mode m job = record job { mode = m }

unfoldable pub with_recurring : Uuid → ResearchJob → ResearchJob
with_recurring id job = record job { recurring_search_id = some id }

abbrev pub is_pending : JobStatus → Bool
is_pending pending = true
is_pending _ = false

abbrev pub is_running : JobStatus → Bool
is_running running = true
is_running _ = false

abbrev pub is_awaiting_input : JobStatus → Bool
is_awaiting_input awaiting_input = true
is_awaiting_input _ = false

abbrev pub is_completed : JobStatus → Bool
is_completed completed = true
is_completed _ = false

unfoldable pub start : ResearchJob → ResearchJob
start job = if is_pending job.status then record job { status = running } else job

unfoldable pub complete : Time → ResearchJob → ResearchJob
complete now job = record job {
  status = completed;
  error = none;
  completed_at = some (now_utc now);
}

unfoldable pub fail : Text → Time → ResearchJob → ResearchJob
fail error now job =
    if is_completed job.status
    then job
    else record job { status = failed; error = some error; completed_at = some (now_utc now) }

-- The methods on `&mut self` that return `Result`: the error comes beside the job.
unfoldable pub request_input : Text → Exec JobError ResearchJob Unit
request_input question job =
    let q = trim question in
    if is_empty q
    then (err empty_question, job)
    else if is_running job.status || is_pending job.status
    then (ok tt, record job { status = awaiting_input; question = some q })
    else (ok tt, job)

unfoldable pub provide_answer : Text → Exec JobError ResearchJob Unit
provide_answer answer job =
    let a = trim answer in
    if is_empty a
    then (err empty_answer, job)
    else if ltb max_answer_len (length a)
    then (err answer_too_long, job)
    else if not (is_awaiting_input job.status)
    then (err not_awaiting_input, job)
    else (ok tt, record job { answer = some a; status = pending })

unfoldable pub is_finished : ResearchJob → Bool
is_finished job = elim job.status [ completed ↦ true | failed ↦ true | _ ↦ false ]
