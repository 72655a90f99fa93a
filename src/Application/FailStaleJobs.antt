-- ===== src/Application/FailStaleJobs.antt =====
-- backend/src/application/fail_stale_jobs.rs: the reaper of jobs that no worker reports on.
pub mod Reaped
use ai_agent_boilerplate.Prelude.{ℕ, suc, ◌-◌, List, [], ◌∷◌, ◌++◌}
use ai_agent_boilerplate.Text.{Text, codes}
use ai_agent_boilerplate.Exec.{◌>>=◌, ◌>>◌, Result, ok, pure, from_result, convert}
use ai_agent_boilerplate.Domain.{Time}
use ai_agent_boilerplate.Domain.Job.{ResearchJob, fail}
use ai_agent_boilerplate.Ports.{Port, port_error, JobRepository}

-- `timeout` is a `std::time::Duration`. Its conversion to nanoseconds for chrono, which fails out
-- of range, is `from_std`; the text that a job fails with, which prints its seconds, is `reason`.
module _ {S : Type 0} (jobs : JobRepository S) (from_std : ℕ → Result Text ℕ) (reason : ℕ → Text)
    (timeout : ℕ) where
  -- `now` is the clock at each failure, which `job.fail` reads; the loop counts what it failed.
  unfoldable pub fail_all : (ℕ → Time) → List ResearchJob → Port S ℕ
  fail_all now [] s = (ok 0, s)
  fail_all now (job ∷ rest) s =
      (do
        jobs.update (fail (reason timeout) (now 0) job)
        reaped ← fail_all (λ n. now (suc n)) rest
        pure (suc reaped))
        s

  unfoldable pub execute : Time → (ℕ → Time) → Port S ℕ
  execute clock now = do
    age ←
        from_result (convert (λ e. port_error (codes "invalid timeout: " ++ e)) (from_std timeout))
    stale ← jobs.list_unfinished_older_than (clock - age)
    fail_all now stale
