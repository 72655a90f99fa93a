-- ===== src/Postgres/Jobs/Calls.antt =====
-- The calls of `PostgresJobRepository` and of `InMemoryJobRepository` on the jobs, side by side.
use mathlib.Core.List.{Perm}
use ai_agent_boilerplate.Prelude.{ℕ, ◌≡◌, true, Option, none, some, List, [], ◌∷◌, map}
use ai_agent_boilerplate.Exec.{Result, ok, err}
use ai_agent_boilerplate.Sort.Laws.{IsSorted}
use ai_agent_boilerplate.Map.{Map, get, values}
use ai_agent_boilerplate.Map.Unique.{IsUnique}
use ai_agent_boilerplate.Map.Keyed.{IsKeyed}
use ai_agent_boilerplate.Domain.{Uuid, Time}
use ai_agent_boilerplate.Domain.Job.{ResearchJob, no_usage}
use ai_agent_boilerplate.Ports.{Port, PortError}
use ai_agent_boilerplate.InMemory.Jobs as Memory
use ai_agent_boilerplate.InMemory.Jobs.{InMemoryJobRepository, newest_job_first}
use ai_agent_boilerplate.Postgres.Tables.{Tables}
use ai_agent_boilerplate.Postgres.Server.{Server, Database}
use ai_agent_boilerplate.Postgres.Users.{has_user}
use ai_agent_boilerplate.Postgres.Tokens.{map_time}
use ai_agent_boilerplate.Postgres.Jobs.{has_link}
use ai_agent_boilerplate.Postgres.Jobs
use ai_agent_boilerplate.Postgres.Jobs.Rows.{row}

-- The calls on the jobs alone.
pub data Call : Type 0 where
  insert update : ResearchJob → Call
  find list_for_user delete_all_for_user : Uuid → Call
  count_created_since : Uuid → Time → Call
  list_unfinished_older_than delete_finished_before : Time → Call

pub data Reply : Type 0 where
  done : Reply
  found : Option ResearchJob → Reply
  listed : List ResearchJob → Reply
  counted : ℕ → Reply

abbrev pub replied : {A : Type 0} → (A → Reply) → Result PortError A → Result PortError Reply
replied f (ok a) = ok (f a)
replied f (err e) = err e

abbrev pub reply : {A S : Type 0} → (A → Reply) → Port S A → Port S Reply
reply f m s = (replied f (m s).0, (m s).1)

-- In memory, with a cutoff as the server keeps it.
unfoldable pub in_memory : (Time → Time) → Call → Port InMemoryJobRepository Reply
in_memory stamp (Call.insert job) = reply (λ _. done) (Memory.insert job)
in_memory stamp (Call.update job) = reply (λ _. done) (Memory.update job)
in_memory stamp (Call.find id) = reply found (Memory.find id)
in_memory stamp (Call.list_for_user user) = reply listed (Memory.list_for_user user)
in_memory stamp (Call.delete_all_for_user user) = reply counted (Memory.delete_all_for_user user)
in_memory stamp (Call.count_created_since user since) =
    reply counted (Memory.count_created_since user (stamp since))
in_memory stamp (Call.list_unfinished_older_than cutoff) =
    reply listed (Memory.list_unfinished_older_than (stamp cutoff))
in_memory stamp (Call.delete_finished_before cutoff) =
    reply counted (Memory.delete_finished_before (stamp cutoff))

unfoldable pub in_database : Server → Call → Port Database Reply
in_database server (Call.insert job) = reply (λ _. done) (Jobs.insert server job)
in_database server (Call.update job) = reply (λ _. done) (Jobs.update server job)
in_database server (Call.find id) = reply found (Jobs.find id)
in_database server (Call.list_for_user user) = reply listed (Jobs.list_for_user server user)
in_database server (Call.delete_all_for_user user) = reply counted (Jobs.delete_all_for_user user)
in_database server (Call.count_created_since user since) =
    reply counted (Jobs.count_created_since server user since)
in_database server (Call.list_unfinished_older_than cutoff) =
    reply listed (Jobs.list_unfinished_older_than server cutoff)
in_database server (Call.delete_finished_before cutoff) =
    reply counted (Jobs.delete_finished_before server cutoff)

-- The table holds the rows of the map, one job to an identifier.
pub record Represents (jobs : Map ResearchJob) (t : Tables) : Type 0 where
  pub rows : t.research_jobs ≡ map row (values jobs)
  pub unique : IsUnique jobs
  pub keyed : IsKeyed (λ j. j.id) jobs

-- What a lifecycle method leaves of a job, and what an update does not write.
pub record SameIdentity (a b : ResearchJob) : Type 0 where
  pub user : a.user_id ≡ b.user_id
  pub keyword : a.keyword ≡ b.keyword
  pub mode : a.mode ≡ b.mode
  pub link : a.recurring_search_id ≡ b.recurring_search_id
  pub created : a.created_at ≡ b.created_at

module _ (server : Server) where
  -- A new job has a fresh identifier, no spend, an account and a search that are stored, and times
  -- that the server keeps as they are; an update is one of a stored job.
  abbrev pub Fits : Call → Map ResearchJob → Tables → Type 0
  Fits (Call.insert job) jobs t =
      (get job.id jobs ≡ none)
      × (job.usage ≡ no_usage)
      × (server.timestamp job.created_at ≡ job.created_at)
      × (map_time server.timestamp job.completed_at ≡ job.completed_at)
      × (has_user job.user_id t ≡ true)
      × (has_link job.recurring_search_id t.recurring_searches ≡ true)
  Fits (Call.update job) jobs t =
      (j : ResearchJob) × (get job.id jobs ≡ some j)
      × SameIdentity job j
      × (map_time server.timestamp job.completed_at ≡ job.completed_at)
  Fits _ jobs t = Unit

  -- The two replies to a call: a list has the same jobs, and the order that the call promises.
  abbrev pub Agree : Call → Result PortError Reply → Result PortError Reply → Type 0
  Agree (Call.list_for_user user) r m =
      (met : List ResearchJob) × (kept : List ResearchJob) × (r ≡ ok (listed met))
      × (m ≡ ok (listed kept))
      × Perm met kept
      × IsSorted newest_job_first met
      × IsSorted newest_job_first kept
  Agree (Call.list_unfinished_older_than cutoff) r m =
      (met : List ResearchJob) × (kept : List ResearchJob) × (r ≡ ok (listed met))
      × (m ≡ ok (listed kept))
      × Perm met kept
  Agree _ r m = r ≡ m

  pub record Refines (c : Call) (db : Database) (s : InMemoryJobRepository) : Type 0 where
    pub same : Agree c (in_database server c db).0 (in_memory server.timestamp c s).0
    pub after :
        Represents (in_memory server.timestamp c s).1.jobs (in_database server c db).1.tables
    pub quiet : (in_database server c db).1.answers ≡ []

  -- Each call fits the state in which it is made.
  abbrev pub AllFit : List Call → Database → InMemoryJobRepository → Type 0
  AllFit [] db s = Unit
  AllFit (c ∷ cs) db s =
      Fits c s.jobs db.tables
      × AllFit cs (in_database server c db).1 (in_memory server.timestamp c s).1

  -- The replies to each of the calls, made one after another on both sides.
  abbrev pub AllAgree : List Call → Database → InMemoryJobRepository → Type 0
  AllAgree [] db s = Unit
  AllAgree (c ∷ cs) db s =
      Agree c (in_database server c db).0 (in_memory server.timestamp c s).0
      × AllAgree cs (in_database server c db).1 (in_memory server.timestamp c s).1
