-- ===== src/Postgres/Examples.antt =====
-- The theorems on the repositories of production, each at a concrete input.
use ai_agent_boilerplate.Prelude.{
  ℕ, ◌+◌, ◌/◌, ◌≡◌, refl, true, Option, none, some, List, [], ◌∷◌, map, arith, leb, length, take,
}
use ai_agent_boilerplate.Exec.{ok}
use ai_agent_boilerplate.Text.{Text, codes}
use ai_agent_boilerplate.Domain.{Uuid, Time, hours}
use ai_agent_boilerplate.Domain.User.{User}
use ai_agent_boilerplate.Domain.Job.{ResearchJob, completed}
use ai_agent_boilerplate.Domain.SearchResult.{
  SearchResult, high, unknown, release, other, newest_first,
}
use ai_agent_boilerplate.Sort.Laws.{IsSorted}
use mathlib.Core.List.{Perm, reverse}
use mathlib.Core.List.Permᴰ
use ai_agent_boilerplate.Postgres.Server.Scans.{IsScan}
use ai_agent_boilerplate.Application.Fixtures.{alice, bob, noon, running_job, bobs_job}
use ai_agent_boilerplate.InMemory.Jobs.{InMemoryJobRepository}
use ai_agent_boilerplate.Postgres.Tables.{Tables, ResultRow}
use ai_agent_boilerplate.Postgres.Server.{
  Server, answered, refused, lost, Database, execute, transaction,
}
use ai_agent_boilerplate.Postgres.Server.Laws.{IsAtomic}
use ai_agent_boilerplate.Postgres.Users
use ai_agent_boilerplate.Postgres.Users.Cascade.{Erased, delete_cascades}
use ai_agent_boilerplate.InMemory.Jobs as Memory
use ai_agent_boilerplate.Map
use ai_agent_boilerplate.Map.{get, values}
use ai_agent_boilerplate.Postgres.Jobs
use ai_agent_boilerplate.Postgres.Leader.{acquire}
use ai_agent_boilerplate.Postgres.Leader
use ai_agent_boilerplate.Postgres.Tables.{JobRow}
use ai_agent_boilerplate.Postgres.Jobs.Rows.{row}
use ai_agent_boilerplate.Postgres.Jobs.Calls.{Call, in_database, in_memory, AllAgree}
use ai_agent_boilerplate.Postgres.Jobs.Refines.{jobs_refine}
use ai_agent_boilerplate.Postgres.Results.{
  result_row, insert_results, store_results, results_for, recent_urls_for_recurring,
}
use ai_agent_boilerplate.Postgres.Results.Atomic.{replaced, store_results-IsAtomic}
use ai_agent_boilerplate.Postgres.Results.Stored.{stamped, store-results_for}
use ai_agent_boilerplate.Postgres.Results.Urls.{redated, dates_play_no_part}
use ai_agent_boilerplate.Postgres.Leader.Exclusion.{one_leader}
use ai_agent_boilerplate.Postgres.Leader.Cluster.{start, next, acquires, releases}
use ai_agent_boilerplate.Postgres.Leader.Progress.{free_to_lead}
use ai_agent_boilerplate.Postgres.Integrity.{IsIntact}
use ai_agent_boilerplate.Postgres.Integrity.Calls.{serve_all, delete_user}
use ai_agent_boilerplate.Postgres.Integrity.Calls
use ai_agent_boilerplate.Postgres.Integrity.Kept.{calls-IsIntact}

-- Rows are met last first, times are kept, and texts are ordered by their length.
abbrev server : Server
server = record {
  scan = λ t rows. reverse rows;
  timestamp = λ t. t;
  text_le = λ a b. leb (length a) (length b);
  add_f64 = λ a b. some (a + b);
  nearest = λ e k chunks. take k chunks;
  unique_violation = codes "duplicate key";
  foreign_key_violation = codes "foreign key";
  check_violation = codes "check";
  out_of_range = codes "out of range";
  dimension_mismatch = codes "expected 768 dimensions";
}

server-IsScan : IsScan server
server-IsScan R t rows = Permᴰ.reverse rows

abbrev account : Uuid → Text → User
account id email = record { id = id; email = email; password_hash = []; created_at = noon }

abbrev stored_result : ResultRow
stored_result = result_row server 10 (record {
  title = codes "Old";
  url = codes "https://old.example";
  snippet = [];
  published_at = none;
  date_confidence = unknown;
  event_type = other;
  summary = none;
  is_new = true;
  raw = codes "null";
})

abbrev tables : Tables
tables = record {
  users = account alice (codes "a@x.io") ∷ account bob (codes "b@x.io") ∷ [];
  refresh_tokens = [];
  research_jobs = row running_job ∷ [];
  search_results = stored_result ∷ [];
  agent_steps = [];
  recurring_searches = [];
  security_events = [];
  notification_channels = [];
  documents = [];
  document_chunks = [];
}

abbrev quiet : Database
quiet = record { tables = tables; answers = [] }

abbrev memory : InMemoryJobRepository
memory = record { jobs = (10, running_job) ∷ []; results = []; steps = [] }

abbrev finished_job : ResearchJob
finished_job = record running_job { status = completed; completed_at = some noon }

abbrev calls : List Call
calls =
    Call.insert bobs_job
    ∷ Call.update finished_job
    ∷ Call.find 10
    ∷ Call.list_for_user bob
    ∷ Call.list_unfinished_older_than noon
    ∷ Call.delete_finished_before noon
    ∷ []

jobs_refine_example : AllAgree server calls quiet memory
unfolding in_database in_memory execute Jobs.insert Jobs.update Memory.insert Memory.update get
    values Map.insert
jobs_refine_example =
    jobs_refine server calls quiet memory server-IsScan refl
      (record { rows = refl; unique = (refl, tt); keyed = (refl, tt) })
      (
        (refl, refl, refl, refl, refl, refl),
        (
          (
            running_job,
            refl,
            record { user = refl; keyword = refl; mode = refl; link = refl; created = refl },
            refl,
          ),
          (tt, (tt, (tt, (tt, tt)))),
        ),
      )

abbrev finding : Text → Option Time → SearchResult
finding url date = record {
  title = codes "New";
  url = url;
  snippet = [];
  published_at = date;
  date_confidence = high;
  event_type = release;
  summary = none;
  is_new = true;
  raw = codes "null";
}

abbrev delivery : List SearchResult
delivery =
    finding (codes "https://a.example") none ∷ finding (codes "https://b.example") (some noon) ∷ []

-- The second insertion is refused by the server.
abbrev interrupted : Database
interrupted = record {
  tables = tables;
  answers = answered ∷ answered ∷ answered ∷ refused (codes "timeout") ∷ [];
}

store_results-IsAtomic_example :
    IsAtomic tables
      (replaced server 10 delivery tables)
      (store_results server 10 delivery interrupted)
store_results-IsAtomic_example = store_results-IsAtomic server 10 delivery interrupted

store-results_for_example :
    (rs : List SearchResult) × ((results_for server 10 (store_results server 10 delivery quiet).1).0
      ≡ ok rs)
    × Perm rs (map (stamped server 10) delivery)
    × IsSorted newest_first rs
unfolding store_results insert_results transaction execute
store-results_for_example = store-results_for server 10 delivery quiet server-IsScan refl refl

abbrev clock : JobRow → Time
clock j = j.created_at + hours 5

dates_play_no_part_example :
    (recent_urls_for_recurring server 20 1 (record quiet {
      tables = record tables { research_jobs = redated clock (row running_job ∷ []) };
    })).0
    ≡ (recent_urls_for_recurring server 20 1 quiet).0
dates_play_no_part_example =
    dates_play_no_part server (λ a b h. ground arith) (λ a b c h k. ground arith) 20 1 clock quiet

delete_cascades_example : Erased alice tables (Users.delete alice quiet).1.tables
unfolding Users.delete execute
delete_cascades_example = delete_cascades alice quiet refl

-- Two replicas with a connection each: the first leads, and the attempt of the second fails.
one_leader_example : ◌≡◌ {A = ℕ} 1 1
unfolding acquire
one_leader_example =
    one_leader (λ c. c / 7) {May = λ a. Unit} 1 1
      (next (next start (acquires 1 7 answered tt refl (λ e. cc)))
        (acquires 2 14 answered tt refl (λ e. cc)))
      refl refl

-- The second takes over when the first has let go.
free_to_lead_example : (acquire (some 14) answered (record { lock = none; held = none })).0 ≡ true
unfolding acquire Leader.release
free_to_lead_example =
    free_to_lead (λ c. c / 7) 2 14
      (next (next start (acquires 1 7 answered refl refl (λ e. cc))) (releases 1 answered refl))
      (λ j. ground arith)

tables-IsIntact : IsIntact tables
tables-IsIntact = record {
  tokens = tt;
  jobs = (refl, tt);
  links = (refl, tt);
  results = (refl, tt);
  steps = tt;
  searches = tt;
  events = tt;
  channels = tt;
  documents = tt;
  chunks = tt;
  chunk_users = tt;
}

-- The answer to the deletion of an account is lost, and the delivery comes too late.
abbrev unanswered : Database
unanswered = record { tables = tables; answers = lost (codes "timeout") ∷ [] }

calls-IsIntact_example :
    IsIntact
      (serve_all server
        (delete_user alice ∷ Calls.store_results 10 delivery ∷ [])
        unanswered).tables
calls-IsIntact_example =
    calls-IsIntact server (delete_user alice ∷ Calls.store_results 10 delivery ∷ []) unanswered
      tables-IsIntact
