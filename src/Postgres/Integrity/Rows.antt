-- ===== src/Postgres/Integrity/Rows.antt =====
-- Rows that change only in columns that nothing refers to, and rows that refer to what is there.
use ai_agent_boilerplate.Prelude.{
  ◌≡◌, refl, ◌∙◌, inl, inr, Bool, true, Option, none, some, List, [], ◌∷◌, ◌==◌, if◌then◌else◌,
  Bool-cases, any, All, All-map,
}
use ai_agent_boilerplate.Text.{Text}
use ai_agent_boilerplate.Domain.{Uuid, Time}
use ai_agent_boilerplate.Domain.Job.{ResearchJob, JobUsage}
use ai_agent_boilerplate.Postgres.Tables.{
  Tables, JobRow, SearchRow, DocumentRow, ChunkRow, update_where,
}
use ai_agent_boilerplate.Postgres.Tables.Laws.{All-update_where, any-update_where}
use ai_agent_boilerplate.Postgres.Server.{Server}
use ai_agent_boilerplate.Postgres.Users.{has_user}
use ai_agent_boilerplate.Postgres.Jobs.{
  has_link, set_lifecycle, prepend_row, spent_row, sum_usage, spend_rows, or_refused,
}
use ai_agent_boilerplate.Postgres.Results.{has_job}
use ai_agent_boilerplate.Postgres.Integrity.{IsIntact}
use ai_agent_boilerplate.Postgres.Integrity.Replaced.{
  set_jobs-IsIntact, set_searches-IsIntact, set_documents-IsIntact,
}
use ai_agent_boilerplate.Postgres.Integrity.Statements.{Leaves}

module _ {t : Tables} (v : IsIntact t) where
  pub same_keys-IsIntact :
      (rows : List JobRow)
      → All (λ (r : JobRow). has_user r.user_id t ≡ true) rows
      → All (λ (r : JobRow). has_link r.recurring_search_id t.recurring_searches ≡ true) rows
      → ((id : Uuid) → any (λ (j : JobRow). j.id == id) rows ≡ has_job id t)
      → IsIntact (record t { research_jobs = rows })
  same_keys-IsIntact rows owned linked same =
      set_jobs-IsIntact v rows owned linked
        (All-map _ _ (λ r e. same r.job_id ∙ e) t.search_results v.results)
        (All-map _ _ (λ r e. same r.job_id ∙ e) t.agent_steps v.steps)

  pub update_jobs-IsIntact :
      (p : JobRow → Bool) (server : Server) (job : ResearchJob)
      → IsIntact (record t {
        research_jobs = update_where p (set_lifecycle server.timestamp job) t.research_jobs;
      })
  update_jobs-IsIntact p server job =
      let f = set_lifecycle server.timestamp job in
      same_keys-IsIntact (update_where p f t.research_jobs)
        (All-update_where p _ f t.research_jobs (λ j h. h) v.jobs)
        (All-update_where p _ f t.research_jobs (λ j h. h) v.links)
        (λ id. any-update_where (λ (j : JobRow). j.id == id) p f t.research_jobs (λ j. refl))

  pub update_searches-IsIntact :
      (p : SearchRow → Bool) (at : Option Time)
      → IsIntact (record t {
        recurring_searches =
            update_where p (λ (r : SearchRow). record r { last_run_at = at }) t.recurring_searches;
      })
  update_searches-IsIntact p at =
      set_searches-IsIntact v (update_where p stamp t.recurring_searches)
        (All-map _ _ (λ j e. link j.recurring_search_id e) t.research_jobs v.links)
        (All-update_where p _ stamp t.recurring_searches (λ s h. h) v.searches)
    where
      stamp : SearchRow → SearchRow
      stamp r = record r { last_run_at = at }

      link :
          (o : Option Uuid)
          → has_link o t.recurring_searches ≡ true
          → has_link o (update_where p stamp t.recurring_searches) ≡ true
      link none h = refl
      link (some id) h =
          any-update_where (λ (s : SearchRow). s.id == id) p stamp t.recurring_searches (λ s. refl)
          ∙ h

  pub update_documents-IsIntact :
      (p : DocumentRow → Bool) (status : Text) (error : Option Text)
      → IsIntact (record t {
        documents =
            update_where p
              (λ (d : DocumentRow). record d { status = status; error = error })
              t.documents;
      })
  update_documents-IsIntact p status error =
      let f = λ (d : DocumentRow). record d { status = status; error = error } in
      set_documents-IsIntact v (update_where p f t.documents)
        (All-update_where p _ f t.documents (λ d h. h) v.documents)
        (All-map _ _
          (λ (c : ChunkRow) e.
            any-update_where (λ (d : DocumentRow). d.id == c.document_id) p f t.documents
              (λ d. refl)
            ∙ e)
          t.document_chunks v.chunks)

-- Of the rows that a sum leaves, where it is in range.
abbrev Where : (List JobRow → Type 0) → Option (List JobRow) → Type 0
Where P none = Unit
Where P (some rows) = P rows

module _ (Q : JobRow → Type 0) where
  abbrev OneWhere : Option JobRow → Type 0
  OneWhere none = Unit
  OneWhere (some r) = Q r

  prepend-Where :
      (o : Option JobRow) (rest : Option (List JobRow))
      → OneWhere o
      → Where (All Q) rest
      → Where (All Q) (prepend_row o rest)
  prepend-Where none none h k = tt
  prepend-Where none (some rows) h k = tt
  prepend-Where (some r) none h k = tt
  prepend-Where (some r) (some rows) h k = (h, k)

module _ (p : JobRow → Bool) where
  prepend-any :
      (r : JobRow) (o : Option JobRow) (rows : List JobRow) (rest : Option (List JobRow))
      → OneWhere (λ r'. p r' ≡ p r) o
      → Where (λ rows'. any p rows' ≡ any p rows) rest
      → Where (λ rows'. any p rows' ≡ any p (r ∷ rows)) (prepend_row o rest)
  prepend-any r none rows none h k = tt
  prepend-any r none rows (some rows') h k = tt
  prepend-any r (some r') rows none h k = tt
  prepend-any r (some r') rows (some rows') h k = rw (h, k)

module _ (server : Server) (id : Uuid) (usage : JobUsage) where
  spent_one :
      (Q : JobRow → Type 0) (r : JobRow)
      → ((u : JobUsage) → Q (record r { usage = u }))
      → Q r
      → OneWhere Q (if r.id == id then spent_row (sum_usage server r.usage usage) r else some r)
  spent_one Q r f h = elim (Bool-cases (r.id == id)) [
    | inl hit ↦ rw hit (spent (sum_usage server r.usage usage))
    | inr miss ↦ rw miss h
  ]
    where
      spent : (u : Option JobUsage) → OneWhere Q (spent_row u r)
      spent none = tt
      spent (some u) = f u

  spend-All :
      (Q : JobRow → Type 0) (rows : List JobRow)
      → ((r : JobRow) (u : JobUsage) → Q r → Q (record r { usage = u }))
      → All Q rows
      → Where (All Q) (spend_rows server id usage rows)
  unfolding spend_rows
  spend-All Q [] f h = tt
  spend-All Q (r ∷ rows) f h =
      prepend-Where Q _ (spend_rows server id usage rows) (spent_one Q r (λ u. f r u h.0) h.0)
        (spend-All Q rows f h.1)

  spend-any :
      (p : JobRow → Bool) (rows : List JobRow)
      → ((r : JobRow) (u : JobUsage) → p (record r { usage = u }) ≡ p r)
      → Where (λ rows'. any p rows' ≡ any p rows) (spend_rows server id usage rows)
  unfolding spend_rows
  spend-any p [] f = refl
  spend-any p (r ∷ rows) f =
      prepend-any p r _ rows (spend_rows server id usage rows)
        (spent_one (λ r'. p r' ≡ p r) r (f r) refl) (spend-any p rows f)

  spent-Leaves :
      {t : Tables} (o : Option (List JobRow))
      → IsIntact t
      → Where (All (λ (r : JobRow). has_user r.user_id t ≡ true)) o
      → Where (All (λ (r : JobRow). has_link r.recurring_search_id t.recurring_searches ≡ true)) o
      → ((k : Uuid) → Where (λ rows. any (λ (j : JobRow). j.id == k) rows ≡ has_job k t) o)
      → Leaves (or_refused server o t)
  spent-Leaves none v owned linked same = tt
  spent-Leaves (some rows) v owned linked same = same_keys-IsIntact v rows owned linked same

  pub spend-Leaves :
      {t : Tables}
      → IsIntact t
      → Leaves (or_refused server (spend_rows server id usage t.research_jobs) t)
  spend-Leaves {t} v =
      spent-Leaves (spend_rows server id usage t.research_jobs) v
        (spend-All _ t.research_jobs (λ r u h. h) v.jobs)
        (spend-All _ t.research_jobs (λ r u h. h) v.links)
        (λ k. spend-any (λ j. j.id == k) t.research_jobs (λ r u. refl))
