-- ===== src/Postgres/Results/Urls.antt =====
-- Which URLs of earlier runs are handed to a new one.
use mathlib.Core.Path.{subst, ap₂}
use ai_agent_boilerplate.Prelude.{
  ℕ, ◌≡◌, refl, sym, ap, ◌∙◌, inl, inr, true, false, ◌&&◌, List, [], ◌∷◌, ◌++◌, map, arith, leb,
  ◌==◌, if◌then◌else◌, Bool-cases, take, filter, All,
}
use ai_agent_boilerplate.Text.{Text, text_eq, text_eq→≡}
use ai_agent_boilerplate.Sort.{insert_sorted, sort_by}
use ai_agent_boilerplate.Sort.Laws.{IsSorted, sort_by-IsSorted}
use ai_agent_boilerplate.Domain.{Uuid, Time}
use ai_agent_boilerplate.Postgres.Tables.{Tables, JobRow, ResultRow}
use ai_agent_boilerplate.Postgres.Server.{Server, Database, execute, next_answer}
use ai_agent_boilerplate.Postgres.Server.Laws.{query_value}
use ai_agent_boilerplate.Postgres.Results.{
  Delivered, delivered, deliveries, distinct_after, distinct_on, url_order, is_run_of,
  recent_urls_for_recurring,
}

-- What `distinct_on` makes of the URLs alone.
distinct_texts_after : Text → List Text → List Text
distinct_texts_after last [] = []
distinct_texts_after last (u ∷ us) =
    let skip = distinct_texts_after last us in
    let keep = u ∷ distinct_texts_after u us in if text_eq u last then skip else keep

distinct_texts : List Text → List Text
distinct_texts [] = []
distinct_texts (u ∷ us) = u ∷ distinct_texts_after u us

urls_of : List Delivered → List Text
urls_of ds = map (λ d. d.url) ds

distinct_after-urls :
    (last : Text) (ds : List Delivered)
    → distinct_after last ds ≡ distinct_texts_after last (urls_of ds)
unfolding distinct_after distinct_texts_after urls_of
distinct_after-urls last [] = refl
distinct_after-urls last (d ∷ ds) =
    ground (arith, distinct_after-urls last ds, distinct_after-urls d.url ds)

distinct_on-urls : (ds : List Delivered) → distinct_on ds ≡ distinct_texts (urls_of ds)
unfolding distinct_on distinct_texts urls_of
distinct_on-urls [] = refl
distinct_on-urls (d ∷ ds) = ap (◌∷◌ d.url) (distinct_after-urls d.url ds)

-- The runs with other creation times.
abbrev pub redated : (JobRow → Time) → List JobRow → List JobRow
redated clock jobs = map {B = JobRow} (λ (j : JobRow). record j { created_at = clock j }) jobs

module _ (search_id : Uuid) (clock : JobRow → Time) where
  deliveries-redated :
      (r : ResultRow) (jobs : List JobRow)
      → urls_of (
          deliveries r
            (filter (λ j. j.id == r.job_id && is_run_of search_id j) (redated clock jobs)))
        ≡ urls_of (deliveries r (filter (λ j. j.id == r.job_id && is_run_of search_id j) jobs))
  unfolding urls_of
  deliveries-redated r [] = refl
  deliveries-redated r (j ∷ jobs) = elim (Bool-cases (j.id == r.job_id && is_run_of search_id j)) [
    | inl hit ↦ rw hit (ap (◌∷◌ r.url) (deliveries-redated r jobs))
    | inr miss ↦ rw miss (deliveries-redated r jobs)
  ]

  urls-append : (ds es : List Delivered) → urls_of (ds ++ es) ≡ urls_of ds ++ urls_of es
  unfolding urls_of
  urls-append [] es = refl
  urls-append (d ∷ ds) es = ap (◌∷◌ d.url) (urls-append ds es)

  delivered-redated :
      (jobs : List JobRow) (rows : List ResultRow)
      → urls_of (delivered search_id (redated clock jobs) rows)
        ≡ urls_of (delivered search_id jobs rows)
  unfolding delivered
  delivered-redated jobs [] = refl
  delivered-redated jobs (r ∷ rows) =
      urls-append _ _
      ∙ ap₂ ◌++◌ (deliveries-redated r jobs) (delivered-redated jobs rows)
      ∙ sym (urls-append _ _)

module _ (server : Server)
    (total : (a b : Text) → server.text_le a b ≡ false → server.text_le b a ≡ true)
    (transitive : (a b c : Text)
      → server.text_le a b ≡ true
      → server.text_le b c ≡ true
      → server.text_le a c ≡ true) where
  self_le : (a : Text) → server.text_le a a ≡ true
  self_le a = elim (Bool-cases (server.text_le a a)) [ inl e ↦ e | inr e ↦ total a a e ]

  insert_least :
      (u : Text) (us : List Text)
      → All (λ z. server.text_le u z ≡ true) us
      → insert_sorted server.text_le u us ≡ u ∷ us
  unfolding insert_sorted
  insert_least u [] h = refl
  insert_least u (z ∷ zs) h = rw (h.0)

  urls-insert :
      (d : Delivered) (ds : List Delivered)
      → IsSorted server.text_le (urls_of ds)
      → urls_of (insert_sorted (url_order server) d ds)
        ≡ insert_sorted server.text_le d.url (urls_of ds)
  unfolding urls_of insert_sorted
  urls-insert d [] h = refl
  urls-insert d (e ∷ es) h = elim (Bool-cases (text_eq d.url e.url)) [
    | inl alike ↦
        let same = text_eq→≡ d.url e.url alike in
        rw alike (
          rw (subst (λ u. server.text_le d.url u ≡ true) same (self_le d.url))
            (elim (Bool-cases (leb e.created_at d.created_at)) [
              | inl newer ↦ rw newer
              | inr older ↦ rw older (
                  ap (◌∷◌ e.url) (
                    urls-insert d es h.1
                    ∙ insert_least d.url (urls_of es) (
                        subst (λ u. All (λ z. server.text_le u z ≡ true) (urls_of es)) (sym same)
                          h.0))
                  ∙ cc same)
            ]))
    | inr unlike ↦ rw unlike (elim (Bool-cases (server.text_le d.url e.url)) [
      | inl first ↦ rw first
      | inr later ↦ rw later (ap (◌∷◌ e.url) (urls-insert d es h.1))
    ])
  ]

  urls-sort_by :
      (ds : List Delivered)
      → urls_of (sort_by (url_order server) ds) ≡ sort_by server.text_le (urls_of ds)
  unfolding urls_of sort_by
  urls-sort_by [] = refl
  urls-sort_by (d ∷ ds) =
      urls-insert d (sort_by (url_order server) ds) (
        subst (IsSorted server.text_le) (sym (urls-sort_by ds))
          (sort_by-IsSorted server.text_le total transitive (urls_of ds)))
      ∙ ap (insert_sorted server.text_le d.url) (urls-sort_by ds)

  remembered-redated :
      (search_id : Uuid) (clock : JobRow → Time) (t : Tables)
      → distinct_on (
          sort_by
            (url_order server)
            (delivered search_id (redated clock t.research_jobs) t.search_results))
        ≡ distinct_on
            (sort_by (url_order server) (delivered search_id t.research_jobs t.search_results))
  remembered-redated search_id clock t =
      distinct_on-urls _
      ∙ ap distinct_texts (
          urls-sort_by _
          ∙ ap (sort_by server.text_le)
              (delivered-redated search_id clock t.research_jobs t.search_results)
          ∙ sym (urls-sort_by _))
      ∙ sym (distinct_on-urls _)

  -- Where the database orders texts totally, the URLs of earlier runs that a saved search
  -- remembers, cut at any limit, are the same whenever those runs were created.
  pub dates_play_no_part :
      (search_id : Uuid) (limit : ℕ) (clock : JobRow → Time) (db : Database)
      → (recent_urls_for_recurring server search_id limit (record db {
        tables = record db.tables { research_jobs = redated clock db.tables.research_jobs };
      })).0
        ≡ (recent_urls_for_recurring server search_id limit db).0
  unfolding recent_urls_for_recurring execute
  dates_play_no_part search_id limit clock db =
      query_value (next_answer db.answers) _ db.tables
        (ap (take limit) (remembered-redated search_id clock db.tables))
