-- ===== src/Application/FailStaleJobs/Reaped.antt =====
-- What the reaper does to the in-memory store.
use ai_agent_boilerplate.Prelude.{
  ℕ, suc, ◌-◌, ◌≡◌, refl, sym, ap, ◌∙◌, inl, inr, Option, none, some, List, [], ◌∷◌, arith, ◌==◌,
  if◌then◌else◌, ==_iff, Bool-cases, length, filter, All, All-filter,
}
use ai_agent_boilerplate.Text.{Text}
use ai_agent_boilerplate.Exec.{Result, ok}
use ai_agent_boilerplate.Map
use ai_agent_boilerplate.Map.{Map, get, values}
use ai_agent_boilerplate.Map.Laws.{get-insert}
use ai_agent_boilerplate.Map.Keyed.{
  find_key, HasDistinctKeys, option_where, find_key-values, values-HasDistinctKeys, values_stored,
}
use ai_agent_boilerplate.Domain.{Uuid, Time}
use ai_agent_boilerplate.Domain.Job.{ResearchJob, fail}
use ai_agent_boilerplate.Domain.Job.Lifecycle.{fail_keeps}
use ai_agent_boilerplate.InMemory.Jobs
use ai_agent_boilerplate.InMemory.Jobs.{keep_usage, is_stale}
use ai_agent_boilerplate.InMemory.Jobs.Retention.{IsConsistent}
use ai_agent_boilerplate.InMemory.World.{World, job_repository}
use ai_agent_boilerplate.Application.FailStaleJobs.{execute, fail_all}

abbrev pub ident : ResearchJob → Uuid
ident j = j.id

-- The turn of the loop in which a job is failed.
unfoldable pub turn_of : Uuid → List ResearchJob → ℕ
turn_of id [] = 0
turn_of id (j ∷ jobs) = if j.id == id then 0 else suc (turn_of id jobs)

module _ (reason : ℕ → Text) (timeout : ℕ) (now : Time) where
  abbrev pub timed_out : ResearchJob → ResearchJob
  timed_out job = fail (reason timeout) now job

  abbrev pub overlay : Option ResearchJob → Option ResearchJob → Option ResearchJob
  overlay none o = o
  overlay (some job) o = some (timed_out job)

  abbrev after_fail : ResearchJob → Map ResearchJob → Map ResearchJob
  after_fail job m =
      Map.insert (timed_out job).id (keep_usage (timed_out job) (get (timed_out job).id m)) m

  get-after_fail :
      (id : Uuid) (job : ResearchJob) (m : Map ResearchJob)
      → get job.id m ≡ some job
      → get id (after_fail job m) ≡ (if job.id == id then some (timed_out job) else get id m)
  get-after_fail id job m h =
      let k = fail_keeps (reason timeout) now job in
      ground (
        arith,
        k.0,
        k.3,
        get-insert (timed_out job).id id (keep_usage (timed_out job) (get (timed_out job).id m)) m,
        ap (λ i. get i m) k.0,
      )

  still_stored :
      (job : ResearchJob) (jobs : List ResearchJob) (m : Map ResearchJob)
      → get job.id m ≡ some job
      → find_key ident job.id jobs ≡ none
      → All (λ j. get j.id m ≡ some j) jobs
      → All (λ j. get j.id (after_fail job m) ≡ some j) jobs
  unfolding find_key
  still_stored job [] m s d h = tt
  still_stored job (j ∷ jobs) m s d h = (
    ground (arith, get-after_fail j.id job m s, ==_iff job.id j.id, ==_iff j.id job.id),
    still_stored job jobs m s (ground arith) h.1,
  )

-- The times of the failures that are left.
abbrev later : (ℕ → Time) → ℕ → Time
later now n = now (suc n)

module _ (reason : ℕ → Text) (timeout : ℕ) (now : ℕ → Time) where
  overlay_step :
      (id : Uuid) (j : ResearchJob) (jobs : List ResearchJob) (m : Map ResearchJob)
      → get j.id m ≡ some j
      → find_key ident j.id jobs ≡ none
      → overlay reason timeout
          (later now (turn_of id jobs))
          (find_key ident id jobs)
          (get id (after_fail reason timeout (now 0) j m))
        ≡ overlay reason timeout
            (now (turn_of id (j ∷ jobs)))
            (find_key ident id (j ∷ jobs))
            (get id m)
  unfolding find_key turn_of
  overlay_step id j jobs m h d = elim (Bool-cases (j.id == id)) [
    | inl hit ↦
        let same = (==_iff j.id id).0 hit in
        rw hit (
          rw (sym (ap (λ k. find_key ident k jobs) same) ∙ d)
            (get-after_fail reason timeout (now 0) id j m h ∙ rw hit))
    | inr miss ↦ rw miss (
        ap (overlay reason timeout (later now (turn_of id jobs)) (find_key ident id jobs))
          (get-after_fail reason timeout (now 0) id j m h ∙ rw miss))
  ]

module _ {X : Type 0} (add_f64 : ℕ → ℕ → ℕ) (from_std : ℕ → Result Text ℕ) (reason : ℕ → Text)
    (timeout : ℕ) where
  fail_all_lem :
      (now : ℕ → Time) (id : Uuid) (jobs : List ResearchJob) (w : World X)
      → HasDistinctKeys ident jobs
      → All (λ j. get j.id w.jobs.jobs ≡ some j) jobs
      → let r = fail_all (job_repository add_f64) from_std reason timeout now jobs w in
        (r.0 ≡ ok (length jobs))
        × (get id r.1.jobs.jobs
            ≡ overlay reason timeout
                (now (turn_of id jobs))
                (find_key ident id jobs)
                (get id w.jobs.jobs))
  unfolding fail_all Jobs.update find_key
  fail_all_lem now id [] w d h = (refl, refl)
  fail_all_lem now id (j ∷ jobs) w d h =
      let m = after_fail reason timeout (now 0) j w.jobs.jobs in
      let v : World X = record w { jobs = record w.jobs { jobs = m } } in
      let ih =
        fail_all_lem (later now) id jobs v d.1
          (still_stored reason timeout (now 0) j jobs w.jobs.jobs h.0 d.0 h.1) in
      (rw ih.0, rw ih.0 (ih.1 ∙ overlay_step reason timeout now id j jobs w.jobs.jobs h.0 d.0))

  -- Where chrono can represent the timeout and every job is stored once under its identifier,
  -- the reaper fails exactly the jobs that are pending or running and older than the timeout,
  -- with the timeout's text and the clock of the turn of the loop in which it fails each, counts
  -- them, and leaves every other job as it was.
  pub reaped_exactly :
      (clock : Time) (now : ℕ → Time) (id : Uuid) (w : World X)
      → IsConsistent w.jobs.jobs
      → (age : ℕ) → from_std timeout ≡ ok age
      → let r = execute (job_repository add_f64) from_std reason timeout clock now w in
        let stale = is_stale (clock - age) in
        (r.0 ≡ ok (length (filter stale (values w.jobs.jobs))))
        × (get id r.1.jobs.jobs
            ≡ overlay reason timeout
                (now (turn_of id (filter stale (values w.jobs.jobs))))
                (option_where ident stale (get id w.jobs.jobs))
                (get id w.jobs.jobs))
  unfolding execute Jobs.list_unfinished_older_than
  reaped_exactly clock now id w c age e =
      let stale = is_stale (clock - age) in
      let done =
        fail_all_lem now id (filter stale (values w.jobs.jobs)) w
          (values-HasDistinctKeys ident stale w.jobs.jobs c.unique c.keyed)
          (All-filter _ stale (values w.jobs.jobs)
            (values_stored ident w.jobs.jobs c.unique c.keyed)) in
      (
        rw e done.0,
        rw e (done.1 ∙ rw (find_key-values ident stale id w.jobs.jobs c.unique c.keyed)),
      )
