-- ===== src/Postgres/Jobs/Refines.antt =====
-- `PostgresJobRepository` against `InMemoryJobRepository`, which the theorems on the use cases are
-- about, call by call.
use mathlib.Core.Path.{subst}
use mathlib.Core.List.{map-append, Perm}
use mathlib.Core.List.Perm
use ai_agent_boilerplate.Prelude.{
  ◌≡◌, refl, sym, ap, ◌∙◌, Bool, true, false, not, List, [], ◌∷◌, ◌++◌, map, arith, ◌==◌, length,
  filter, any,
}
use ai_agent_boilerplate.Postgres.Server.Scans.{IsScan, reordered}
use ai_agent_boilerplate.Exec.{ok}
use ai_agent_boilerplate.Sort.{sort_by}
use ai_agent_boilerplate.Sort.Laws.{sort_by-map, sort_by-perm, sort_by-IsSorted}
use ai_agent_boilerplate.Map
use ai_agent_boilerplate.Map.{Map, get, values, retain}
use ai_agent_boilerplate.Map.Unique.{insert-IsUnique, retain-IsUnique}
use ai_agent_boilerplate.Map.Laws.{
  AllEntries-get, AllEntries-insert, AllEntries-retain, AllEntries-map,
}
use ai_agent_boilerplate.Map.{AllEntries}
use ai_agent_boilerplate.Domain.{Uuid, Time}
use ai_agent_boilerplate.Domain.Job.{ResearchJob}
use ai_agent_boilerplate.InMemory.Jobs as Memory
use ai_agent_boilerplate.InMemory.Jobs.{
  InMemoryJobRepository, is_stale, is_disposable, created_since, newest_job_first,
}
use ai_agent_boilerplate.Postgres.Tables.{
  map_first, JobRow, delete_where, update_where, drop_jobs, first_row,
}
use ai_agent_boilerplate.Postgres.Server.{Server, Database, execute, settle, answered}
use ai_agent_boilerplate.Postgres.Jobs.{
  insert_job, set_lifecycle, transposed, collect, job_from_row, newest_row_first,
  is_unfinished_before, is_finished_before,
}
use ai_agent_boilerplate.Postgres.Jobs
use ai_agent_boilerplate.Postgres.Jobs.Rows.{
  row, collect-rows, filter-rows, length-rows, unfinished-row, finished-row, first_row-get, any-row,
  values-insert, update-insert, delete-retain, doomed_entries, transposed-rows, length-ids,
}
use ai_agent_boilerplate.Postgres.Jobs.Calls.{
  Call, done, found, listed, counted, replied, in_memory, in_database, Represents, Fits, Refines,
  AllFit, AllAgree,
}

newest_total : (a b : ResearchJob) → newest_job_first a b ≡ false → newest_job_first b a ≡ true
newest_total a b h = ground arith

newest_transitive :
    (a b c : ResearchJob)
    → newest_job_first a b ≡ true
    → newest_job_first b c ≡ true
    → newest_job_first a c ≡ true
newest_transitive a b c h k = ground arith

module _ (server : Server) where
  module _ (db : Database) (s : InMemoryJobRepository) (scans : IsScan server)
      (quiet : db.answers ≡ []) (r : Represents s.jobs db.tables) where
    -- A test of rows that is a test of jobs counts the same.
    count-rows :
        (p : JobRow → Bool) (q : ResearchJob → Bool)
        → ((j : ResearchJob) → p (row j) ≡ q j)
        → length (filter p db.tables.research_jobs) ≡ length (filter q (values s.jobs))
    count-rows p q h =
        ap (λ rows. length (filter p rows)) r.rows
        ∙ ap length (filter-rows p q (values s.jobs) h)
        ∙ length-rows (filter q (values s.jobs))

    insert_accepted :
        (job : ResearchJob)
        → Fits server (Call.insert job) s.jobs db.tables
        → insert_job server job db.tables
          ≡ ok (tt, record db.tables { research_jobs = db.tables.research_jobs ++ row job ∷ [] })
    insert_accepted job (fresh, free, created, ended, owned, linked) =
        rw (ap (any (λ r. r.id == job.id)) r.rows ∙ any-row job.id s.jobs r.keyed fresh)
          (rw owned (rw linked (cc (free, created, ended))))

    insert-Refines :
        (job : ResearchJob)
        → Fits server (Call.insert job) s.jobs db.tables
        → Refines server (Call.insert job) db s
    unfolding in_database in_memory execute Jobs.insert Memory.insert
    insert-Refines job f = record {
      same =
          rw quiet
            (ap (λ x. replied (λ _. done) (settle answered db.tables x).0) (insert_accepted job f));
      after = rw quiet (
          subst (λ x. Represents (Map.insert job.id job s.jobs) (settle answered db.tables x).1)
            (sym (insert_accepted job f))
            (record {
              rows =
                  ap (λ rows. rows ++ row job ∷ []) r.rows
                  ∙ sym (map-append row (values s.jobs) (job ∷ []))
                  ∙ ap (map row) (sym (values-insert job.id job s.jobs f.0));
              unique = insert-IsUnique job.id job s.jobs r.unique;
              keyed = AllEntries-insert (λ k j. j.id ≡ k) job.id job s.jobs r.keyed refl;
            }));
      quiet = rw quiet;
    }

    update-Refines :
        (job : ResearchJob)
        → Fits server (Call.update job) s.jobs db.tables
        → Refines server (Call.update job) db s
    unfolding in_database in_memory execute Jobs.update Memory.update
    update-Refines job (j, e, i, k) = record {
      same = rw quiet;
      after = rw quiet (
          rw e (record {
            rows =
                ap
                  (update_where (λ (r : JobRow). r.id == job.id)
                    (set_lifecycle server.timestamp job))
                  r.rows
                ∙ update-insert job.id (set_lifecycle server.timestamp job) j
                    (record job { usage = j.usage }) s.jobs r.unique r.keyed e
                    (cc (
                      AllEntries-get (λ k j. j.id ≡ k) job.id j s.jobs r.keyed e,
                      i.user,
                      i.keyword,
                      i.mode,
                      i.link,
                      i.created,
                      k,
                    ));
            unique = insert-IsUnique job.id (record job { usage = j.usage }) s.jobs r.unique;
            keyed =
                AllEntries-insert (λ k j. j.id ≡ k) job.id (record job { usage = j.usage }) s.jobs
                  r.keyed refl;
          }));
      quiet = rw quiet;
    }

    find-Refines : (id : Uuid) → Refines server (Call.find id) db s
    unfolding in_database in_memory execute Jobs.find Memory.find
    find-Refines id = record {
      same = rw quiet (
          ap
            (λ rows.
              replied found
                (transposed (map_first job_from_row (first_row (filter (λ r. r.id == id) rows)))))
            r.rows
          ∙ ap (λ o. replied found (transposed (map_first job_from_row o)))
              (first_row-get id s.jobs r.unique r.keyed)
          ∙ ap (replied found) (transposed-rows (get id s.jobs)));
      after = rw quiet r;
      quiet = rw quiet;
    }

    -- What a query of some jobs meets.
    met :
        (p : JobRow → Bool) (q : ResearchJob → Bool)
        → ((j : ResearchJob) → p (row j) ≡ q j)
        → (met : List ResearchJob) × (server.scan db.tables (filter p db.tables.research_jobs)
            ≡ map row met)
          × Perm met (filter q (values s.jobs))
    met p q h =
        reordered row (filter q (values s.jobs))
          (scans JobRow db.tables (filter p db.tables.research_jobs))
          (ap (filter p) r.rows ∙ filter-rows p q (values s.jobs) h)

    list-Refines : (user : Uuid) → Refines server (Call.list_for_user user) db s
    unfolding in_database in_memory execute Jobs.list_for_user Memory.list_for_user
    list-Refines user =
        let own = λ (j : ResearchJob). j.user_id == user in
        let m = met (λ r. r.user_id == user) own (λ j. refl) in
        record {
          same = (
            sort_by newest_job_first m.0,
            sort_by newest_job_first (filter own (values s.jobs)),
            rw quiet (
                ap (λ rows. replied listed (collect job_from_row (sort_by newest_row_first rows)))
                  m.1
                ∙ ap (λ rows. replied listed (collect job_from_row rows))
                    (sort_by-map newest_row_first row m.0)
                ∙ ap (replied listed) (collect-rows (sort_by newest_job_first m.0))),
            refl,
            Perm.trans (sort_by-perm newest_job_first m.0)
                (Perm.trans m.2 (Perm.symm (sort_by-perm newest_job_first _))),
            sort_by-IsSorted newest_job_first newest_total newest_transitive m.0,
            sort_by-IsSorted newest_job_first newest_total newest_transitive _,
          );
          after = rw quiet r;
          quiet = rw quiet;
        }

    count-Refines :
        (user : Uuid) (since : Time) → Refines server (Call.count_created_since user since) db s
    unfolding in_database in_memory execute Jobs.count_created_since Memory.count_created_since
    count-Refines user since = record {
      same = rw quiet (
          ap (λ n. ok (counted n))
            (count-rows _ (created_since user (server.timestamp since)) (λ j. refl)));
      after = rw quiet r;
      quiet = rw quiet;
    }

    unfinished-Refines :
        (cutoff : Time) → Refines server (Call.list_unfinished_older_than cutoff) db s
    unfolding in_database in_memory execute Jobs.list_unfinished_older_than
        Memory.list_unfinished_older_than
    unfinished-Refines cutoff =
        let c = server.timestamp cutoff in
        let m = met (is_unfinished_before c) (is_stale c) (unfinished-row c) in
        record {
          same = (
            m.0,
            filter (is_stale c) (values s.jobs),
            rw quiet (
                ap (λ rows. replied listed (collect job_from_row rows)) m.1
                ∙ ap (replied listed) (collect-rows m.0)),
            refl,
            m.2,
          );
          after = rw quiet r;
          quiet = rw quiet;
        }

    deleted :
        (p : JobRow → Bool) (keep : Uuid → ResearchJob → Bool)
        → AllEntries (λ k j. not (p (row j)) ≡ keep k j) s.jobs
        → Represents (retain keep s.jobs) (drop_jobs p db.tables)
    unfolding drop_jobs
    deleted p keep h = record {
      rows = ap (delete_where p) r.rows ∙ delete-retain p keep s.jobs h;
      unique = retain-IsUnique keep s.jobs r.unique;
      keyed = AllEntries-retain (λ k j. j.id ≡ k) keep s.jobs r.keyed;
    }

    purge-Refines : (cutoff : Time) → Refines server (Call.delete_finished_before cutoff) db s
    unfolding in_database in_memory execute Jobs.delete_finished_before
        Memory.delete_finished_before
    purge-Refines cutoff =
        let c = server.timestamp cutoff in
        record {
          same = rw quiet (
              ap (λ n. ok (counted n))
                (count-rows (is_finished_before c) (is_disposable c) (finished-row c)
                  ∙ sym (length-ids (filter (is_disposable c) (values s.jobs)))));
          after = rw quiet (
              deleted (is_finished_before c) _ (
                AllEntries-map _ _ s.jobs (λ k j e. ap not (finished-row c j ∙ sym e))
                  (doomed_entries (is_disposable c) s.jobs r.unique r.keyed)));
          quiet = rw quiet;
        }

    erase-Refines : (user : Uuid) → Refines server (Call.delete_all_for_user user) db s
    unfolding in_database in_memory execute Jobs.delete_all_for_user Memory.delete_all_for_user
    erase-Refines user = record {
      same = rw quiet (
          ap (λ n. ok (counted n))
            (count-rows (λ r. r.user_id == user) (λ j. j.user_id == user) (λ j. refl)
              ∙ sym (length-ids (filter (λ j. j.user_id == user) (values s.jobs)))));
      after = rw quiet (
          deleted (λ r. r.user_id == user) (λ _ j. not (j.user_id == user))
            (AllEntries-map _ _ s.jobs (λ k j e. refl) r.keyed));
      quiet = rw quiet;
    }

    call-Refines : (c : Call) → Fits server c s.jobs db.tables → Refines server c db s
    call-Refines (Call.insert job) f = insert-Refines job f
    call-Refines (Call.update job) f = update-Refines job f
    call-Refines (Call.find id) f = find-Refines id
    call-Refines (Call.list_for_user user) f = list-Refines user
    call-Refines (Call.delete_all_for_user user) f = erase-Refines user
    call-Refines (Call.count_created_since user since) f = count-Refines user since
    call-Refines (Call.list_unfinished_older_than cutoff) f = unfinished-Refines cutoff
    call-Refines (Call.delete_finished_before cutoff) f = purge-Refines cutoff

  -- Where every statement is answered and the table holds the jobs of the in-memory repository,
  -- each once under its identifier, any sequence of insertions, lifecycle updates, reads,
  -- counts, purges and deletions of jobs gets the same replies from PostgreSQL as from memory,
  -- but for the order of listed jobs: a query meets its rows in any order, both lists of a
  -- user's jobs are newest first, and a list holds the same jobs on both sides; with cutoffs as
  -- the server keeps them, where each inserted job is new, unspent and refers to what is stored,
  -- each updated one is stored and keeps its identity, and the times of both are kept by the
  -- server.
  pub jobs_refine :
      (cs : List Call) (db : Database) (s : InMemoryJobRepository)
      → IsScan server
      → db.answers ≡ []
      → Represents s.jobs db.tables
      → AllFit server cs db s
      → AllAgree server cs db s
  jobs_refine [] db s scans quiet r f = tt
  jobs_refine (c ∷ cs) db s scans quiet r f =
      let step = call-Refines db s scans quiet r c f.0 in
      (
        step.same,
        jobs_refine cs (in_database server c db).1 (in_memory server.timestamp c s).1 scans
            step.quiet step.after f.1,
      )
