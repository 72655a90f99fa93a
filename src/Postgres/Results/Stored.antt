-- ===== src/Postgres/Results/Stored.antt =====
-- `PostgresJobRepository::store_results` and a `results_for` after it.
use mathlib.Core.List.{Perm}
use mathlib.Core.List.Perm
use ai_agent_boilerplate.Prelude.{
  ◌≡◌, refl, sym, ap, ◌∙◌, Bool, true, false, List, [], ◌∷◌, ◌++◌, map, arith, ◌==◌, filter,
}
use ai_agent_boilerplate.Postgres.Server.Scans.{IsScan, reordered}
use ai_agent_boilerplate.Exec.{ok}
use ai_agent_boilerplate.Sort.{sort_by}
use ai_agent_boilerplate.Sort.Laws.{sort_by-map, sort_by-perm, IsSorted, sort_by-IsSorted}
use ai_agent_boilerplate.Domain.{Uuid}
use ai_agent_boilerplate.Domain.SearchResult.{SearchResult, newest_first}
use ai_agent_boilerplate.Postgres.Tables.{ResultRow, delete_where}
use ai_agent_boilerplate.Postgres.Columns.{confidence-from-to, event_type-from-to}
use ai_agent_boilerplate.Postgres.Tokens.{map_time}
use ai_agent_boilerplate.Postgres.Jobs.{collect}
use ai_agent_boilerplate.Postgres.Server.{Server, Database, execute}
use ai_agent_boilerplate.Postgres.Results.{
  result_row, result_from_row, newest_result_first, results_for, store_results,
}
use ai_agent_boilerplate.Postgres.Results.Atomic.{store_results-IsAtomic}

module _ (server : Server) (job_id : Uuid) where
  -- The result with its date as the server keeps it.
  abbrev pub stamped : SearchResult → SearchResult
  stamped r = record r { published_at = map_time server.timestamp r.published_at }

  result_from-row :
      (r : SearchResult) → result_from_row (result_row server job_id r) ≡ ok (stamped r)
  unfolding result_from_row
  result_from-row r =
      rw (confidence-from-to r.date_confidence) (rw (event_type-from-to r.event_type))

  collect-map :
      (rs : List SearchResult)
      → collect result_from_row (map (result_row server job_id) rs) ≡ ok (map stamped rs)
  unfolding collect
  collect-map [] = refl
  collect-map (r ∷ rs) = rw (result_from-row r) (rw (collect-map rs))

  filter-delete :
      (rows new : List ResultRow)
      → filter (λ r. r.job_id == job_id) (delete_where (λ r. r.job_id == job_id) rows ++ new)
        ≡ filter (λ r. r.job_id == job_id) new
  unfolding delete_where
  filter-delete [] new = refl
  filter-delete (r ∷ rows) new = ground (arith, filter-delete rows new)

  filter-own :
      (rs : List SearchResult)
      → filter (λ r. r.job_id == job_id) (map (result_row server job_id) rs)
        ≡ map (result_row server job_id) rs
  filter-own [] = refl
  filter-own (r ∷ rs) = ground (arith, filter-own rs)

  abbrev inherited : SearchResult → SearchResult → Bool
  inherited a b = newest_result_first (result_row server job_id a) (result_row server job_id b)

  newest_total : (a b : SearchResult) → newest_first a b ≡ false → newest_first b a ≡ true
  unfolding newest_first
  newest_total a b h = ground arith

  newest_transitive :
      (a b c : SearchResult)
      → newest_first a b ≡ true
      → newest_first b c ≡ true
      → newest_first a c ≡ true
  unfolding newest_first
  newest_transitive a b c h k = ground arith

  -- Rows of results, sorted and decoded, are the results, sorted.
  collect-sorted :
      (rs : List SearchResult)
      → collect result_from_row (sort_by newest_result_first (map (result_row server job_id) rs))
        ≡ ok (sort_by newest_first (map stamped rs))
  unfolding newest_first
  collect-sorted rs =
      ap (collect result_from_row) (sort_by-map newest_result_first (result_row server job_id) rs)
      ∙ collect-map (sort_by inherited rs)
      ∙ ap ok (sym (sort_by-map newest_first stamped rs))

  -- The rows that the job has after a delivery.
  own_rows :
      (results : List SearchResult) (db : Database)
      → (store_results server job_id results db).0 ≡ ok tt
      → filter
          (λ r. r.job_id == job_id)
          (store_results server job_id results db).1.tables.search_results
        ≡ map (result_row server job_id) results
  own_rows results db stored =
      ap (λ t. filter (λ r. r.job_id == job_id) t.search_results)
        ((store_results-IsAtomic server job_id results db).1 tt stored)
      ∙ filter-delete db.tables.search_results (map (result_row server job_id) results)
      ∙ filter-own results

  -- Where a delivery of results succeeds and the statements after it are answered, reading the
  -- job's results, in whatever order the query meets their rows, gives exactly those delivered,
  -- with their dates as the server keeps them, newest first and undated last.
  pub store-results_for :
      (results : List SearchResult) (db : Database)
      → IsScan server
      → (store_results server job_id results db).0 ≡ ok tt
      → (store_results server job_id results db).1.answers ≡ []
      → (rs : List SearchResult) × ((results_for server job_id
            (store_results server job_id results db).1).0
          ≡ ok rs)
        × Perm rs (map stamped results)
        × IsSorted newest_first rs
  unfolding results_for execute
  store-results_for results db scans stored quiet =
      let after = (store_results server job_id results db).1 in
      let met =
        reordered (result_row server job_id) results
          (scans ResultRow after.tables
            (filter (λ r. r.job_id == job_id) after.tables.search_results))
          (own_rows results db stored) in
      (
        sort_by newest_first (map stamped met.0),
        rw quiet (
            ap (λ rows. collect result_from_row (sort_by newest_result_first rows)) met.1
            ∙ collect-sorted met.0),
        Perm.trans (sort_by-perm newest_first (map stamped met.0)) (Perm.map stamped met.2),
        sort_by-IsSorted newest_first newest_total newest_transitive (map stamped met.0),
      )
