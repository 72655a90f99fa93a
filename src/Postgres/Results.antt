-- ===== src/Postgres/Results.antt =====
-- `PostgresJobRepository`: the results and the journal of a job, and the URLs of earlier runs.
pub mod Atomic
pub mod Stored
pub mod Urls
use ai_agent_boilerplate.Prelude.{
  ℕ, Bool, false, ◌&&◌, none, some, List, [], ◌∷◌, ◌++◌, map, leb, ◌==◌, if◌then◌else◌, take,
  filter, any,
}
use ai_agent_boilerplate.Exec.{Result, ok, err, pure, ◌>>=◌, ◌>>◌}
use ai_agent_boilerplate.Text.{Text, text_eq}
use ai_agent_boilerplate.Sort.{sort_by}
use ai_agent_boilerplate.Domain.{Uuid, Time}
use ai_agent_boilerplate.Domain.Job.{AgentStep}
use ai_agent_boilerplate.Domain.SearchResult.{SearchResult, DateConfidence, option_le}
use ai_agent_boilerplate.Ports.{Port, PortError}
use ai_agent_boilerplate.InMemory.Jobs.{i32_le}
use ai_agent_boilerplate.Postgres.Tables.{Tables, JobRow, ResultRow, StepRow, delete_where}
use ai_agent_boilerplate.Postgres.Columns.{
  confidence_to_str, confidence_from_str, event_type_to_str, event_type_from_str,
}
use ai_agent_boilerplate.Postgres.Server.{
  Server, Database, Statement, execute, transaction, query, write, decoded,
}
use ai_agent_boilerplate.Postgres.Tokens.{map_time}
use ai_agent_boilerplate.Postgres.Jobs.{collect}

abbrev pub result_of : ResultRow → DateConfidence → SearchResult
result_of row confidence = record {
  title = row.title;
  url = row.url;
  snippet = row.snippet;
  published_at = row.published_at;
  date_confidence = confidence;
  event_type = event_type_from_str row.event_type;
  summary = row.summary;
  is_new = row.is_new;
  raw = row.raw;
}

abbrev pub with_confidence :
    ResultRow → Result PortError DateConfidence → Result PortError SearchResult
with_confidence row (ok confidence) = ok (result_of row confidence)
with_confidence row (err e) = err e

unfoldable pub result_from_row : ResultRow → Result PortError SearchResult
result_from_row row = with_confidence row (confidence_from_str row.date_confidence)

-- `ORDER BY published_at DESC NULLS LAST`
abbrev pub newest_result_first : ResultRow → ResultRow → Bool
newest_result_first a b = option_le b.published_at a.published_at

unfoldable pub results_for : Server → Uuid → Port Database (List SearchResult)
results_for server job_id = do
  rows ← execute (
      query (λ t.
        sort_by newest_result_first
          (server.scan t (filter (λ r. r.job_id == job_id) t.search_results))))
  decoded (collect result_from_row rows)

abbrev pub by_seq : StepRow → StepRow → Bool
by_seq a b = i32_le a.step.seq b.step.seq

unfoldable pub steps_for : Uuid → Port Database (List AgentStep)
steps_for job_id = execute (
    query
      (λ t. map (λ r. r.step) (sort_by by_seq (filter (λ r. r.job_id == job_id) t.agent_steps))))

unfoldable pub clear_steps : Uuid → Port Database Unit
clear_steps job_id = execute (
    write (λ t. record t {
      agent_steps = delete_where (λ (r : StepRow). r.job_id == job_id) t.agent_steps;
    }))

-- `REFERENCES research_jobs`
abbrev pub has_job : Uuid → Tables → Bool
has_job id t = any (λ j. j.id == id) t.research_jobs

-- A row of the join of results and the runs of a saved search, of which the URL and the time when
-- the run was created are selected.
pub record Delivered : Type 0 where
  pub url : Text
  pub created_at : Time

abbrev pub is_run_of : Uuid → JobRow → Bool
is_run_of search_id j = elim j.recurring_search_id [ none ↦ false | some id ↦ id == search_id ]

abbrev pub deliveries : ResultRow → List JobRow → List Delivered
deliveries r jobs = map (λ j. record { url = r.url; created_at = j.created_at }) jobs

-- `FROM search_results r JOIN research_jobs j ON j.id = r.job_id WHERE j.recurring_search_id = $1`
unfoldable pub delivered : Uuid → List JobRow → List ResultRow → List Delivered
delivered search_id jobs [] = []
delivered search_id jobs (r ∷ rows) =
    deliveries r (filter (λ j. j.id == r.job_id && is_run_of search_id j) jobs)
    ++ delivered search_id jobs rows

-- `DISTINCT ON (r.url)` of rows in the order of their URLs: the first of each URL.
unfoldable pub distinct_after : Text → List Delivered → List Text
distinct_after last [] = []
distinct_after last (d ∷ ds) =
    let skip = distinct_after last ds in
    let keep = d.url ∷ distinct_after d.url ds in if text_eq d.url last then skip else keep

unfoldable pub distinct_on : List Delivered → List Text
distinct_on [] = []
distinct_on (d ∷ ds) = d.url ∷ distinct_after d.url ds

-- `DELETE FROM search_results WHERE job_id = $1`
abbrev pub wiped : Uuid → Tables → Tables
wiped job_id t = record t {
  search_results = delete_where (λ (r : ResultRow). r.job_id == job_id) t.search_results;
}

abbrev pub delete_results : Uuid → Statement Unit
delete_results job_id = write (wiped job_id)

module _ (server : Server) where
  -- `ORDER BY r.url, j.created_at DESC`
  abbrev pub url_order : Delivered → Delivered → Bool
  url_order a b =
      if text_eq a.url b.url then leb b.created_at a.created_at else server.text_le a.url b.url

  unfoldable pub recent_urls_for_recurring : Uuid → ℕ → Port Database (List Text)
  recent_urls_for_recurring search_id limit = execute (
      query (λ t.
        take limit
          (distinct_on (sort_by url_order (delivered search_id t.research_jobs t.search_results)))))

  abbrev pub result_row : Uuid → SearchResult → ResultRow
  result_row job_id result = record {
    job_id = job_id;
    title = result.title;
    url = result.url;
    snippet = result.snippet;
    published_at = map_time server.timestamp result.published_at;
    date_confidence = confidence_to_str result.date_confidence;
    event_type = event_type_to_str result.event_type;
    summary = result.summary;
    is_new = result.is_new;
    raw = result.raw;
  }

  abbrev pub insert_result : Uuid → SearchResult → Statement Unit
  insert_result job_id result t =
      if has_job job_id t
      then ok (tt, record t { search_results = t.search_results ++ result_row job_id result ∷ [] })
      else err server.foreign_key_violation

  -- `for result in results { … }`
  unfoldable pub insert_results : Uuid → List SearchResult → Port Database Unit
  insert_results job_id [] = pure tt
  insert_results job_id (r ∷ rs) = do execute (insert_result job_id r); insert_results job_id rs

  unfoldable pub store_results : Uuid → List SearchResult → Port Database Unit
  unfolding insert_results
  store_results job_id results =
      transaction (do execute (delete_results job_id); insert_results job_id results)

  -- `ON CONFLICT (job_id, seq) DO NOTHING`
  abbrev pub insert_step : Uuid → AgentStep → Statement Unit
  insert_step job_id step t =
      if any (λ r. r.job_id == job_id && r.step.seq == step.seq) t.agent_steps
      then ok (tt, t)
      else if has_job job_id t
      then ok (
        tt,
        record t { agent_steps = t.agent_steps ++ record { job_id = job_id; step = step } ∷ [] },
      )
      else err server.foreign_key_violation

  unfoldable pub append_step : Uuid → AgentStep → Port Database Unit
  append_step job_id step = execute (insert_step job_id step)
