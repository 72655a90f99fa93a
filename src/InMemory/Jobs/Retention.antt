-- ===== src/InMemory/Jobs/Retention.antt =====
-- What the retention purge and the account deletion take from the store, and what they spare.
use ai_agent_boilerplate.Prelude.{
  ◌≡◌, refl, Bool, false, not, Option, none, some, List, [], ◌∷◌, map, arith, ◌==◌, if◌then◌else◌,
  filter, contains,
}
use ai_agent_boilerplate.Map.{Map, get, values, remove, AllEntries}
use ai_agent_boilerplate.Map.Laws.{get-remove}
use ai_agent_boilerplate.Map.Unique.{IsUnique, get-retain}
use ai_agent_boilerplate.Domain.{Uuid, Time}
use ai_agent_boilerplate.Domain.Job.{ResearchJob}
use ai_agent_boilerplate.InMemory.Jobs.{
  InMemoryJobRepository, remove_all, is_disposable, delete_finished_before, delete_all_for_user,
}

-- Every job is stored once, under its own identifier.
pub record IsConsistent (jobs : Map ResearchJob) : Type 0 where
  pub unique : IsUnique jobs
  pub keyed : AllEntries (λ id j. j.id ≡ id) jobs

-- The identifiers of the jobs that pass `p`.
abbrev pub ids_where : (ResearchJob → Bool) → Map ResearchJob → List Uuid
ids_where p jobs = map (λ j. j.id) (filter p (values jobs))

abbrev pub passes : (ResearchJob → Bool) → Option ResearchJob → Bool
passes p none = false
passes p (some j) = p j

contains-ids_where :
    (p : ResearchJob → Bool) (id : Uuid) (jobs : Map ResearchJob)
    → IsUnique jobs
    → AllEntries (λ i j. j.id ≡ i) jobs
    → contains id (ids_where p jobs) ≡ passes p (get id jobs)
unfolding get values
contains-ids_where p id [] u k = refl
contains-ids_where p id ((i, j) ∷ jobs) u k = ground (arith, contains-ids_where p id jobs u.1 k.1)

get-remove_all :
    {A : Type 0} (id : Uuid) (ids : List Uuid) (m : Map A)
    → get id (remove_all ids m) ≡ (if contains id ids then none else get id m)
unfolding remove_all
get-remove_all id [] m = refl
get-remove_all id (i ∷ ids) m =
    ground (arith, get-remove_all id ids (remove i m), get-remove i id m)

abbrev pub drop_if : {A : Type 0} → Bool → Option A → Option A
drop_if gone o = if gone then none else o

-- In a store that holds every job once under its identifier, the purge deletes exactly the one-
-- shot, finished jobs created before the cutoff, with their results and journals.
pub delete_finished_before_lem :
    (cutoff : Time) (s : InMemoryJobRepository) (id : Uuid)
    → IsConsistent s.jobs
    → let s' = (delete_finished_before cutoff s).1 in
      let gone = passes (is_disposable cutoff) (get id s.jobs) in
      (get id s'.jobs ≡ drop_if gone (get id s.jobs))
      × (get id s'.results ≡ drop_if gone (get id s.results))
      × (get id s'.steps ≡ drop_if gone (get id s.steps))
unfolding delete_finished_before
delete_finished_before_lem cutoff s id c =
    let doomed = ids_where (is_disposable cutoff) s.jobs in
    let e = contains-ids_where (is_disposable cutoff) id s.jobs c.unique c.keyed in
    (
      rw (get-retain (λ i _. not (contains i doomed)) id s.jobs c.unique) (ground (arith, e)),
      rw (get-remove_all id doomed s.results) (rw e),
      rw (get-remove_all id doomed s.steps) (rw e),
    )

-- In a store that holds every job once under its identifier, deleting a user's jobs deletes
-- exactly theirs, with their results and journals.
pub delete_all_for_user_lem :
    (user_id : Uuid) (s : InMemoryJobRepository) (id : Uuid)
    → IsConsistent s.jobs
    → let s' = (delete_all_for_user user_id s).1 in
      let gone = passes (λ j. j.user_id == user_id) (get id s.jobs) in
      (get id s'.jobs ≡ drop_if gone (get id s.jobs))
      × (get id s'.results ≡ drop_if gone (get id s.results))
      × (get id s'.steps ≡ drop_if gone (get id s.steps))
unfolding delete_all_for_user
delete_all_for_user_lem user_id s id c =
    let doomed = ids_where (λ j. j.user_id == user_id) s.jobs in
    let e = contains-ids_where (λ j. j.user_id == user_id) id s.jobs c.unique c.keyed in
    (
      rw (get-retain (λ _ j. not (j.user_id == user_id)) id s.jobs c.unique) (ground arith),
      rw (get-remove_all id doomed s.results) (rw e),
      rw (get-remove_all id doomed s.steps) (rw e),
    )
