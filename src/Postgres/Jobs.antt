-- ===== src/Postgres/Jobs.antt =====
-- `PostgresJobRepository`: jobs and their spend.
pub mod Rows
pub mod Calls
pub mod Refines
use ai_agent_boilerplate.Prelude.{
  ℕ, ◌^◌, Bool, true, false, not, ◌&&◌, ◌||◌, Option, none, some, List, [], ◌∷◌, ◌++◌, ltb, leb,
  ◌==◌, if◌then◌else◌, length, filter, any,
}
use ai_agent_boilerplate.Exec.{Result, ok, err, ◌>>=◌}
use ai_agent_boilerplate.Text.{codes, text_eq}
use ai_agent_boilerplate.Sort.{sort_by}
use ai_agent_boilerplate.Domain.{Uuid, Time}
use ai_agent_boilerplate.Domain.Job.{ResearchJob, JobUsage, JobStatus, no_usage, add_i32, add_i64}
use ai_agent_boilerplate.Ports.{Port, PortError}
use ai_agent_boilerplate.Postgres.Tables.{
  SearchRow, map_first, JobRow, update_where, first_row, drop_jobs,
}
use ai_agent_boilerplate.Postgres.Columns.{
  status_to_str, status_from_str, mode_to_str, mode_from_str,
}
use ai_agent_boilerplate.Postgres.Server.{
  Server, Database, Statement, execute, query, write, decoded,
}
use ai_agent_boilerplate.Postgres.Users.{has_user}
use ai_agent_boilerplate.Postgres.Tokens.{map_time}

abbrev pub job_of : JobRow → JobStatus → ResearchJob
job_of row status = record {
  id = row.id;
  user_id = row.user_id;
  keyword = row.keyword;
  mode = mode_from_str row.mode;
  status = status;
  error = row.error;
  question = row.question;
  answer = row.answer;
  recurring_search_id = row.recurring_search_id;
  usage = row.usage;
  created_at = row.created_at;
  completed_at = row.completed_at;
}

abbrev pub with_status : JobRow → Result PortError JobStatus → Result PortError ResearchJob
with_status row (ok status) = ok (job_of row status)
with_status row (err e) = err e

unfoldable pub job_from_row : JobRow → Result PortError ResearchJob
job_from_row row = with_status row (status_from_str row.status)

-- `row.as_ref().map(job_from_row).transpose()`
abbrev pub transposed : {A : Type 0} → Option (Result PortError A) → Result PortError (Option A)
transposed none = ok none
transposed (some (ok a)) = ok (some a)
transposed (some (err e)) = err e

abbrev pub prepend :
    {A : Type 0} → Result PortError A → Result PortError (List A) → Result PortError (List A)
prepend (err e) rest = err e
prepend (ok a) (err e) = err e
prepend (ok a) (ok as') = ok (a ∷ as')

-- `rows.iter().map(f).collect()`: the first row that does not decode is the error.
unfoldable pub collect :
    {R A : Type 0} → (R → Result PortError A) → List R → Result PortError (List A)
collect f [] = ok []
collect f (r ∷ rows) = prepend (f r) (collect f rows)

abbrev pub newest_row_first : JobRow → JobRow → Bool
newest_row_first a b = leb b.created_at a.created_at

-- `status IN ('pending', 'running') AND created_at < $1`
abbrev pub is_unfinished_before : Time → JobRow → Bool
is_unfinished_before cutoff r =
    (text_eq r.status (codes "pending") || text_eq r.status (codes "running"))
    && ltb r.created_at cutoff

abbrev pub is_unlinked : Option Uuid → Bool
is_unlinked none = true
is_unlinked (some id) = false

-- `recurring_search_id IS NULL AND status IN ('completed', 'failed') AND created_at < $1`
abbrev pub is_finished_before : Time → JobRow → Bool
is_finished_before cutoff r =
    is_unlinked r.recurring_search_id
    && (text_eq r.status (codes "completed") || text_eq r.status (codes "failed"))
    && ltb r.created_at cutoff

-- `DELETE FROM research_jobs WHERE p`, with the number of rows affected.
abbrev pub delete_jobs : (JobRow → Bool) → Statement ℕ
delete_jobs p t = ok (length (filter p t.research_jobs), drop_jobs p t)

unfoldable pub find : Uuid → Port Database (Option ResearchJob)
find id = do
  row ← execute (query (λ t. first_row (filter (λ r. r.id == id) t.research_jobs)))
  decoded (transposed (map_first job_from_row row))

unfoldable pub list_for_user : Server → Uuid → Port Database (List ResearchJob)
list_for_user server user_id = do
  rows ← execute (
      query (λ t.
        sort_by newest_row_first
          (server.scan t (filter (λ r. r.user_id == user_id) t.research_jobs))))
  decoded (collect job_from_row rows)

unfoldable pub delete_all_for_user : Uuid → Port Database ℕ
delete_all_for_user user_id = execute (delete_jobs (λ r. r.user_id == user_id))

-- The lifecycle columns, which `UPDATE research_jobs` sets.
abbrev pub set_lifecycle : (Time → Time) → ResearchJob → JobRow → JobRow
set_lifecycle stamp job r = record r {
  status = status_to_str job.status;
  error = job.error;
  question = job.question;
  answer = job.answer;
  completed_at = map_time stamp job.completed_at;
}

abbrev pub has_link : Option Uuid → List SearchRow → Bool
has_link none searches = true
has_link (some id) searches = any (λ s. s.id == id) searches

-- The sign of a two's complement number of `w` bits, and whether a sum leaves their range.
abbrev pub is_negative : ℕ → ℕ → Bool
is_negative half a = leb half a

abbrev pub same : Bool → Bool → Bool
same true b = b
same false b = not b

abbrev pub overflows : ℕ → ℕ → ℕ → ℕ → Bool
overflows half a b sum =
    same (is_negative half a) (is_negative half b)
    && not (same (is_negative half a) (is_negative half sum))

-- `INTEGER` and `BIGINT` sums are refused out of range.
abbrev pub add_integer : ℕ → ℕ → Option ℕ
add_integer a b = let sum = add_i32 a b in if overflows (2 ^ 31) a b sum then none else some sum

abbrev pub add_bigint : ℕ → ℕ → Option ℕ
add_bigint a b = let sum = add_i64 a b in if overflows (2 ^ 63) a b sum then none else some sum

abbrev pub or_usage : Option ℕ → Option ℕ → Option ℕ → Option ℕ → Option ℕ → Option JobUsage
or_usage (some calls) (some input) (some output) (some searches) (some cost) = some (record {
  llm_calls = calls;
  llm_input_tokens = input;
  llm_output_tokens = output;
  search_calls = searches;
  cost_usd = cost;
})
or_usage _ _ _ _ _ = none

abbrev pub spent_row : Option JobUsage → JobRow → Option JobRow
spent_row none r = none
spent_row (some usage) r = some (record r { usage = usage })

abbrev pub prepend_row : Option JobRow → Option (List JobRow) → Option (List JobRow)
prepend_row (some r) (some rows) = some (r ∷ rows)
prepend_row _ _ = none

module _ (server : Server) where
  -- The row that `INSERT INTO research_jobs` writes: the spend has its column's default.
  abbrev pub job_row : ResearchJob → JobRow
  job_row job = record {
    id = job.id;
    user_id = job.user_id;
    keyword = job.keyword;
    mode = mode_to_str job.mode;
    status = status_to_str job.status;
    error = job.error;
    question = job.question;
    answer = job.answer;
    recurring_search_id = job.recurring_search_id;
    usage = no_usage;
    created_at = server.timestamp job.created_at;
    completed_at = map_time server.timestamp job.completed_at;
  }

  abbrev pub insert_job : ResearchJob → Statement Unit
  insert_job job t =
      if any (λ r. r.id == job.id) t.research_jobs
      then err server.unique_violation
      else if has_user job.user_id t && has_link job.recurring_search_id t.recurring_searches
      then ok (tt, record t { research_jobs = t.research_jobs ++ job_row job ∷ [] })
      else err server.foreign_key_violation

  unfoldable pub insert : ResearchJob → Port Database Unit
  insert job = execute (insert_job job)

  unfoldable pub update : ResearchJob → Port Database Unit
  update job = execute (
      write (λ t. record t {
        research_jobs =
            update_where (λ (r : JobRow). r.id == job.id) (set_lifecycle server.timestamp job)
              t.research_jobs;
      }))

  unfoldable pub count_created_since : Uuid → Time → Port Database ℕ
  count_created_since user_id since = execute (
      query (λ t. length (
        filter (λ r. r.user_id == user_id && leb (server.timestamp since) r.created_at)
          t.research_jobs)))

  unfoldable pub list_unfinished_older_than : Time → Port Database (List ResearchJob)
  list_unfinished_older_than cutoff = do
    rows ← execute (
        query (λ t.
          server.scan t (filter (is_unfinished_before (server.timestamp cutoff)) t.research_jobs)))
    decoded (collect job_from_row rows)

  unfoldable pub delete_finished_before : Time → Port Database ℕ
  delete_finished_before cutoff =
      execute (delete_jobs (is_finished_before (server.timestamp cutoff)))

  unfoldable pub sum_usage : JobUsage → JobUsage → Option JobUsage
  sum_usage u v =
      or_usage (add_integer u.llm_calls v.llm_calls)
        (add_bigint u.llm_input_tokens v.llm_input_tokens)
        (add_bigint u.llm_output_tokens v.llm_output_tokens)
        (add_integer u.search_calls v.search_calls) (server.add_f64 u.cost_usd v.cost_usd)

  -- The rows after `UPDATE … SET llm_calls = llm_calls + $2, …`: only those it matches are summed.
  unfoldable pub spend_rows : Uuid → JobUsage → List JobRow → Option (List JobRow)
  spend_rows id usage [] = some []
  spend_rows id usage (r ∷ rows) =
      let hit = spent_row (sum_usage r.usage usage) r in
      prepend_row (if r.id == id then hit else some r) (spend_rows id usage rows)

  abbrev pub or_refused : Option (List JobRow) → Statement Unit
  or_refused none t = err server.out_of_range
  or_refused (some rows) t = ok (tt, record t { research_jobs = rows })

  unfoldable pub add_usage : Uuid → JobUsage → Port Database Unit
  add_usage job_id usage = execute (λ t. or_refused (spend_rows job_id usage t.research_jobs) t)
