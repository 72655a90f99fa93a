-- ===== src/Postgres/Results/Atomic.antt =====
-- `PostgresJobRepository::store_results`, whatever becomes of its statements.
use mathlib.Core.List.{append_assoc, append-nil}
use ai_agent_boilerplate.Prelude.{
  ◌≡◌, ap, ◌∙◌, inl, inr, List, [], ◌∷◌, ◌++◌, map, ◌==◌, Bool-cases,
}
use ai_agent_boilerplate.Exec.{ok, Result-cases, ◌>>◌}
use ai_agent_boilerplate.Domain.{Uuid}
use ai_agent_boilerplate.Domain.SearchResult.{SearchResult}
use ai_agent_boilerplate.Postgres.Tables.{Tables, ResultRow, delete_where}
use ai_agent_boilerplate.Postgres.Server.{Server, Database, execute}
use ai_agent_boilerplate.Postgres.Server.Laws.{execute_ok, write_ok, IsAtomic, transaction-IsAtomic}
use ai_agent_boilerplate.Postgres.Results.{
  result_row, has_job, wiped, insert_result, insert_results, delete_results, store_results,
}

module _ (server : Server) (job_id : Uuid) where
  abbrev with_results : List SearchResult → Tables → Tables
  with_results results t = record t {
    search_results = t.search_results ++ map (result_row server job_id) results;
  }

  -- The tables in which the results of the job are these and no other.
  abbrev pub replaced : List SearchResult → Tables → Tables
  replaced results t = record t {
    search_results =
        delete_where (λ (r : ResultRow). r.job_id == job_id) t.search_results
        ++ map (result_row server job_id) results;
  }

  insert_result_ok :
      (r : SearchResult) (t t' : Tables)
      → insert_result server job_id r t ≡ ok (tt, t')
      → t' ≡ with_results (r ∷ []) t
  insert_result_ok r t t' h = elim (Bool-cases (has_job job_id t)) [
    | inl stored ↦ cc (rw stored at h)
    | inr unknown ↦ cc (rw unknown at h)
  ]

  with_results_cons :
      (r : SearchResult) (rs : List SearchResult) (t : Tables)
      → with_results rs (with_results (r ∷ []) t) ≡ with_results (r ∷ rs) t
  with_results_cons r rs t = rw append_assoc

  insert_results_ok :
      (rs : List SearchResult) (db : Database)
      → (insert_results server job_id rs db).0 ≡ ok tt
      → (insert_results server job_id rs db).1.tables ≡ with_results rs db.tables
  unfolding insert_results
  insert_results_ok [] db h = rw append-nil
  insert_results_ok (r ∷ rs) db h =
      let st = insert_result server job_id r in
      elim (Result-cases (execute st db).0) [
        | inl (u, e) ↦
            let stored =
              insert_result_ok r db.tables (execute st db).1.tables (execute_ok st db u e) in
            rw e (
              insert_results_ok rs (execute st db).1 (rw e at h)
              ∙ ap (with_results rs) stored
              ∙ with_results_cons r rs db.tables)
        | inr (m, e) ↦ cc (rw e at h)
      ]

  replace_ok :
      (results : List SearchResult) (t : Tables) (d : Database) (a : Unit {0})
      → d.tables ≡ t
      → ((execute (delete_results job_id) >> insert_results server job_id results) d).0 ≡ ok a
      → ((execute (delete_results job_id) >> insert_results server job_id results) d).1.tables
        ≡ replaced results t
  replace_ok results t d a same h =
      let st = delete_results job_id in
      elim (Result-cases (execute st d).0) [
        | inl (u, e) ↦ rw e (
            insert_results_ok results (execute st d).1 (rw e at h)
            ∙ ap (with_results results) (write_ok (wiped job_id) d u e)
            ∙ ap (replaced results) same)
        | inr (m, e) ↦ cc (rw e at h)
      ]

  -- Whatever becomes of its statements, a delivery of results leaves the tables as they were or
  -- with exactly these results for the job and all else as it was, and the latter where it
  -- reports success.
  pub store_results-IsAtomic :
      (results : List SearchResult) (db : Database)
      → IsAtomic db.tables (replaced results db.tables) (store_results server job_id results db)
  unfolding store_results
  store_results-IsAtomic results db =
      transaction-IsAtomic _ db (replaced results db.tables) (replace_ok results db.tables)
