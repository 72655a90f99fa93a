-- ===== src/InMemory/Jobs.antt =====
-- `InMemoryJobRepository`: jobs, results and journals.
pub mod Usage
pub mod Journal
pub mod Memory
pub mod Retention
pub mod Counting
use ai_agent_boilerplate.Prelude.{
  ℕ, ◌+◌, ◌%◌, ◌^◌, Bool, true, false, not, ◌&&◌, ◌||◌, Option, none, some, List, [], ◌∷◌, ◌++◌,
  map, ltb, leb, ◌==◌, if◌then◌else◌, length, filter, any, contains,
}
use ai_agent_boilerplate.Text.{Text, text_eq}
use ai_agent_boilerplate.Exec.{ok}
use ai_agent_boilerplate.Map
use ai_agent_boilerplate.Map.{Map, get, values, retain, modify, remove}
use ai_agent_boilerplate.Sort.{sort_by}
use ai_agent_boilerplate.Domain.{Uuid, Time}
use ai_agent_boilerplate.Domain.Job.{
  ResearchJob, AgentStep, JobUsage, is_pending, is_running, is_finished,
}
use ai_agent_boilerplate.Domain.Job
use ai_agent_boilerplate.Domain.SearchResult.{SearchResult}
use ai_agent_boilerplate.Ports.{Port}

pub record InMemoryJobRepository : Type 0 where
  pub jobs : Map ResearchJob
  pub results : Map (List SearchResult)
  pub steps : Map (List AgentStep)

-- `unwrap_or_default` of a stored list.
abbrev pub or_empty : {A : Type 0} → Option (List A) → List A
or_empty none = []
or_empty (some xs) = xs

unfoldable pub insert : ResearchJob → Port InMemoryJobRepository Unit
insert job s = (ok tt, record s { jobs = Map.insert job.id job s.jobs })

abbrev pub keep_usage : ResearchJob → Option ResearchJob → ResearchJob
keep_usage job none = job
keep_usage job (some existing) = record job { usage = existing.usage }

-- A lifecycle update never writes the accumulated spend.
unfoldable pub update : ResearchJob → Port InMemoryJobRepository Unit
update job s =
    (ok tt, record s { jobs = Map.insert job.id (keep_usage job (get job.id s.jobs)) s.jobs })

unfoldable pub find : Uuid → Port InMemoryJobRepository (Option ResearchJob)
find id s = (ok (get id s.jobs), s)

-- `Reverse(job.created_at)`
abbrev pub newest_job_first : ResearchJob → ResearchJob → Bool
newest_job_first a b = leb b.created_at a.created_at

unfoldable pub list_for_user : Uuid → Port InMemoryJobRepository (List ResearchJob)
list_for_user user_id s =
    (ok (sort_by newest_job_first (filter (λ j. j.user_id == user_id) (values s.jobs))), s)

abbrev pub created_since : Uuid → Time → ResearchJob → Bool
created_since user_id since j = j.user_id == user_id && leb since j.created_at

unfoldable pub count_created_since : Uuid → Time → Port InMemoryJobRepository ℕ
count_created_since user_id since s =
    (ok (length (filter (created_since user_id since) (values s.jobs))), s)

-- Pending or running, and created before the cutoff.
abbrev pub is_stale : Time → ResearchJob → Bool
is_stale cutoff j = (is_pending j.status || is_running j.status) && ltb j.created_at cutoff

unfoldable pub list_unfinished_older_than : Time → Port InMemoryJobRepository (List ResearchJob)
list_unfinished_older_than cutoff s = (ok (filter (is_stale cutoff) (values s.jobs)), s)

abbrev pub is_one_shot : Option Uuid → Bool
is_one_shot none = true
is_one_shot (some id) = false

-- One-shot, finished, and created before the cutoff.
abbrev pub is_disposable : Time → ResearchJob → Bool
is_disposable cutoff j =
    is_one_shot j.recurring_search_id && is_finished j && ltb j.created_at cutoff

-- `for id in &doomed { map.remove(id); }`
unfoldable pub remove_all : {A : Type 0} → List Uuid → Map A → Map A
remove_all [] m = m
remove_all (id ∷ ids) m = remove_all ids (remove id m)

unfoldable pub delete_finished_before : Time → Port InMemoryJobRepository ℕ
delete_finished_before cutoff s =
    let doomed = map (λ j. j.id) (filter (is_disposable cutoff) (values s.jobs)) in
    (
      ok (length doomed),
      record {
        jobs = retain (λ id _. not (contains id doomed)) s.jobs;
        results = remove_all doomed s.results;
        steps = remove_all doomed s.steps;
      },
    )

unfoldable pub delete_all_for_user : Uuid → Port InMemoryJobRepository ℕ
delete_all_for_user user_id s =
    let doomed = map (λ j. j.id) (filter (λ j. j.user_id == user_id) (values s.jobs)) in
    (
      ok (length doomed),
      record {
        jobs = retain (λ _ j. not (j.user_id == user_id)) s.jobs;
        results = remove_all doomed s.results;
        steps = remove_all doomed s.steps;
      },
    )

unfoldable pub store_results : Uuid → List SearchResult → Port InMemoryJobRepository Unit
store_results job_id results s = (ok tt, record s { results = Map.insert job_id results s.results })

unfoldable pub results_for : Uuid → Port InMemoryJobRepository (List SearchResult)
results_for job_id s = (ok (or_empty (get job_id s.results)), s)

-- The order of `i32` values, from their bit patterns.
abbrev pub i32_le : ℕ → ℕ → Bool
i32_le a b = leb ((a + 2 ^ 31) % 2 ^ 32) ((b + 2 ^ 31) % 2 ^ 32)

abbrev pub by_seq : AgentStep → AgentStep → Bool
by_seq a b = i32_le a.seq b.seq

-- The journal after one more step: a step whose `seq` is there already is dropped.
unfoldable pub add_step : AgentStep → List AgentStep → List AgentStep
add_step step journal =
    if any (λ s. s.seq == step.seq) journal then journal else sort_by by_seq (journal ++ step ∷ [])

-- `entry(job_id).or_default()` leaves a journal there, also where the step is dropped.
unfoldable pub append_step : Uuid → AgentStep → Port InMemoryJobRepository Unit
unfolding add_step
append_step job_id step s = (
  ok tt,
  record s { steps = Map.insert job_id (add_step step (or_empty (get job_id s.steps))) s.steps },
)

unfoldable pub steps_for : Uuid → Port InMemoryJobRepository (List AgentStep)
steps_for job_id s = (ok (or_empty (get job_id s.steps)), s)

unfoldable pub clear_steps : Uuid → Port InMemoryJobRepository Unit
clear_steps job_id s = (ok tt, record s { steps = remove job_id s.steps })

abbrev pub spend : (ℕ → ℕ → ℕ) → JobUsage → ResearchJob → ResearchJob
spend add_f64 usage j = record j { usage = Job.add add_f64 j.usage usage }

unfoldable pub add_usage : (ℕ → ℕ → ℕ) → Uuid → JobUsage → Port InMemoryJobRepository Unit
add_usage add_f64 job_id usage s =
    (ok tt, record s { jobs = modify job_id (spend add_f64 usage) s.jobs })

-- The two loops of `recent_urls_for_recurring`: the URLs gathered so far, and whether the limit
-- made the method return.
abbrev pub Gathered : Type 0
Gathered = List Text × Bool

unfoldable pub gather_run : ℕ → List SearchResult → List Text → Gathered
gather_run limit [] urls = (urls, false)
gather_run limit (r ∷ rs) urls =
    let urls' = urls ++ r.url ∷ [] in
    let skip = gather_run limit rs urls in
    let more = gather_run limit rs urls' in
    if any (text_eq r.url) urls
    then skip
    else if leb limit (length urls' % 2 ^ 32)
    then (urls', true)
    else more

unfoldable pub gather_runs : ℕ → Map (List SearchResult) → List ResearchJob → List Text → List Text
gather_runs limit results [] urls = urls
gather_runs limit results (job ∷ jobs) urls =
    let run = gather_run limit (or_empty (get job.id results)) urls in
    let rest = gather_runs limit results jobs run.0 in if run.1 then run.0 else rest

abbrev pub is_run_of : Uuid → ResearchJob → Bool
is_run_of search_id j = elim j.recurring_search_id [ none ↦ false | some id ↦ id == search_id ]

unfoldable pub recent_urls_for_recurring : Uuid → ℕ → Port InMemoryJobRepository (List Text)
recent_urls_for_recurring search_id limit s = (
  ok (
      gather_runs limit s.results
        (sort_by newest_job_first (filter (is_run_of search_id) (values s.jobs))) []),
  s,
)
