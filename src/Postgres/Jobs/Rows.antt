-- ===== src/Postgres/Jobs/Rows.antt =====
-- A map of jobs as rows of the table: what the statements on the rows do to the map.
use mathlib.Core.Path.{subst}
use ai_agent_boilerplate.Prelude.{
  suc, ◌≡◌, refl, ap, ◌∙◌, Bool, true, false, not, ◌||◌, Option, none, some, List, [], ◌∷◌, ◌++◌,
  map, arith, ◌==◌, ==_iff, length, filter, any, All, contains, All-map,
}
use ai_agent_boilerplate.Exec.{ok}
use ai_agent_boilerplate.Text.{codes, text_eq}
use ai_agent_boilerplate.Map.{Map, get, insert, values, retain, AllEntries}
use ai_agent_boilerplate.Map.Unique.{IsUnique}
use ai_agent_boilerplate.Map.Keyed.{IsKeyed, keys_where, passes, contains-keys_where, values_stored}
use ai_agent_boilerplate.Domain.{Uuid, Time}
use ai_agent_boilerplate.Domain.Job.{ResearchJob, JobStatus, is_pending, is_running, is_finished}
use ai_agent_boilerplate.InMemory.Jobs.{is_stale, is_disposable, is_one_shot}
use ai_agent_boilerplate.Postgres.Tables.{map_first, JobRow, delete_where, update_where, first_row}
use ai_agent_boilerplate.Postgres.Columns.{status_to_str, mode_to_str, status-from-to, mode-from-to}
use ai_agent_boilerplate.Postgres.Jobs.{
  collect, job_from_row, transposed, is_unfinished_before, is_finished_before, is_unlinked,
}

-- The row of a stored job.
abbrev pub row : ResearchJob → JobRow
row job = record {
  id = job.id;
  user_id = job.user_id;
  keyword = job.keyword;
  mode = mode_to_str job.mode;
  status = status_to_str job.status;
  error = job.error;
  question = job.question;
  answer = job.answer;
  recurring_search_id = job.recurring_search_id;
  usage = job.usage;
  created_at = job.created_at;
  completed_at = job.completed_at;
}

pub job_from-row : (j : ResearchJob) → job_from_row (row j) ≡ ok j
unfolding job_from_row
job_from-row j = rw (status-from-to j.status) (rw (mode-from-to j.mode))

pub transposed-rows :
    (o : Option ResearchJob) → transposed (map_first job_from_row (map_first row o)) ≡ ok o
transposed-rows none = refl
transposed-rows (some j) = rw (job_from-row j)

pub length-ids : (js : List ResearchJob) → length (map (λ j. j.id) js) ≡ length js
length-ids [] = refl
length-ids (j ∷ js) = ap suc (length-ids js)

pub collect-rows : (js : List ResearchJob) → collect job_from_row (map row js) ≡ ok js
unfolding collect
collect-rows [] = refl
collect-rows (j ∷ js) = rw (job_from-row j) (rw (collect-rows js))

-- A test of rows that is a test of jobs filters the same.
pub filter-rows :
    (p : JobRow → Bool) (q : ResearchJob → Bool) (js : List ResearchJob)
    → ((j : ResearchJob) → p (row j) ≡ q j)
    → filter p (map row js) ≡ map row (filter q js)
filter-rows p q [] h = refl
filter-rows p q (j ∷ js) h = ground (arith, h j, filter-rows p q js h)

pub length-rows : (js : List ResearchJob) → length (map row js) ≡ length js
length-rows [] = refl
length-rows (j ∷ js) = ap suc (length-rows js)

status_is :
    (s : JobStatus)
    → ((text_eq (status_to_str s) (codes "pending") || text_eq (status_to_str s) (codes "running"))
        ≡ (is_pending s || is_running s))
unfolding status_to_str text_eq
status_is JobStatus.pending = refl
status_is JobStatus.running = refl
status_is JobStatus.awaiting_input = refl
status_is JobStatus.completed = refl
status_is JobStatus.failed = refl

abbrev ended : JobStatus → Bool
ended s = elim s [ JobStatus.completed ↦ true | JobStatus.failed ↦ true | _ ↦ false ]

status_ended :
    (s : JobStatus)
    → ((text_eq (status_to_str s) (codes "completed") || text_eq (status_to_str s) (codes "failed"))
        ≡ ended s)
unfolding status_to_str text_eq
status_ended JobStatus.pending = refl
status_ended JobStatus.running = refl
status_ended JobStatus.awaiting_input = refl
status_ended JobStatus.completed = refl
status_ended JobStatus.failed = refl

unlinked-one_shot : (o : Option Uuid) → is_unlinked o ≡ is_one_shot o
unlinked-one_shot none = refl
unlinked-one_shot (some id) = refl

pub unfinished-row :
    (cutoff : Time) (j : ResearchJob) → is_unfinished_before cutoff (row j) ≡ is_stale cutoff j
unfinished-row cutoff j = rw (status_is j.status)

pub finished-row :
    (cutoff : Time) (j : ResearchJob) → is_finished_before cutoff (row j) ≡ is_disposable cutoff j
unfolding is_finished
finished-row cutoff j = rw (unlinked-one_shot j.recurring_search_id) (rw (status_ended j.status))

module _ (k : Uuid) where
  -- The row of an identifier, and whether there is one.
  pub first_row-get :
      (m : Map ResearchJob)
      → IsUnique m
      → IsKeyed (λ j. j.id) m
      → first_row (filter (λ r. r.id == k) (map row (values m))) ≡ map_first row (get k m)
  unfolding get values
  first_row-get [] u h = refl
  first_row-get ((i, j) ∷ m) u h = ground (arith, first_row-get m u.1 h.1)

  pub any-row :
      (m : Map ResearchJob)
      → IsKeyed (λ j. j.id) m
      → get k m ≡ none
      → any (λ r. r.id == k) (map row (values m)) ≡ false
  unfolding get values
  any-row [] h e = refl
  any-row ((i, j) ∷ m) h e = ground (arith, any-row m h.1)

  pub values-insert :
      (j : ResearchJob) (m : Map ResearchJob)
      → get k m ≡ none
      → values (insert k j m) ≡ values m ++ j ∷ []
  unfolding get values insert
  values-insert j [] e = refl
  values-insert j ((i, w) ∷ m) e = ground (arith, values-insert j m)

  update_absent :
      (f : JobRow → JobRow) (m : Map ResearchJob)
      → IsKeyed (λ j. j.id) m
      → get k m ≡ none
      → update_where (λ r. r.id == k) f (map row (values m)) ≡ map row (values m)
  unfolding get values update_where
  update_absent f [] h e = refl
  update_absent f ((i, w) ∷ m) h e = ground (arith, update_absent f m h.1)

  -- An update of one row is an insertion under its key.
  pub update-insert :
      (f : JobRow → JobRow) (j j' : ResearchJob) (m : Map ResearchJob)
      → IsUnique m
      → IsKeyed (λ j. j.id) m
      → get k m ≡ some j
      → f (row j) ≡ row j'
      → update_where (λ r. r.id == k) f (map row (values m)) ≡ map row (values (insert k j' m))
  unfolding get values update_where insert
  update-insert f j j' [] u h e g = absurd (ground arith)
  update-insert f j j' ((i, w) ∷ m) u h e g = ground (
    arith,
    g,
    update_absent f m h.1,
    update-insert f j j' m u.1 h.1,
    ap (λ x. get x m) {x = i} {y = k},
    ap (λ x. f (row x)) {x = w} {y = j},
    ==_iff i k,
  )

-- A deletion of rows is what `retain` leaves.
pub delete-retain :
    (p : JobRow → Bool) (keep : Uuid → ResearchJob → Bool) (m : Map ResearchJob)
    → AllEntries (λ k j. not (p (row j)) ≡ keep k j) m
    → delete_where p (map row (values m)) ≡ map row (values (retain keep m))
unfolding delete_where values retain
delete-retain p keep [] h = refl
delete-retain p keep ((i, j) ∷ m) h = ground (arith, delete-retain p keep m h.1)

-- The keys of the jobs that pass a test are the keys under which they stand.
entries_passing :
    (p : ResearchJob → Bool) (ids : List Uuid) (m : Map ResearchJob)
    → IsKeyed (λ j. j.id) m
    → All (λ j. contains j.id ids ≡ p j) (values m)
    → AllEntries (λ k j. contains k ids ≡ p j) m
unfolding values
entries_passing p ids [] h a = tt
entries_passing p ids ((i, j) ∷ m) h a =
    (subst (λ k. contains k ids ≡ p j) h.0 a.0, entries_passing p ids m h.1 a.1)

pub doomed_entries :
    (p : ResearchJob → Bool) (m : Map ResearchJob)
    → IsUnique m
    → IsKeyed (λ j. j.id) m
    → AllEntries (λ k j. contains k (keys_where (λ j. j.id) p m) ≡ p j) m
doomed_entries p m u h = entries_passing p (keys_where (λ j. j.id) p m) m h (
    All-map (λ j. get j.id m ≡ some j) _
      (λ j e. contains-keys_where (λ j. j.id) p j.id m u h ∙ ap (passes p) e) (values m)
      (values_stored (λ j. j.id) m u h))
