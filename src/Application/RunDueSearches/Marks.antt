-- ===== src/Application/RunDueSearches/Marks.antt =====
-- A scheduler tick marks every due search as run, whatever becomes of its job.
use ai_agent_boilerplate.Prelude.{ℕ, ◌≤◌, ◌≡◌, List, [], ◌∷◌, if◌then◌else◌}
use ai_agent_boilerplate.Text.{Text}
use ai_agent_boilerplate.Exec.{Result, ok}
use ai_agent_boilerplate.Map.{Map, modify}
use ai_agent_boilerplate.Domain.{Time}
use ai_agent_boilerplate.Domain.Job.{JobError, ResearchJob, max_keyword_len}
use ai_agent_boilerplate.Domain.Job.Lifecycle.{IsClean}
use ai_agent_boilerplate.Domain.Recurring
use ai_agent_boilerplate.Domain.Recurring.{RecurringSearch, is_due}
use ai_agent_boilerplate.Ports.{Port, PortError}
use ai_agent_boilerplate.InMemory.Jobs
use ai_agent_boilerplate.InMemory.Searches
use ai_agent_boilerplate.InMemory.World.{World}

-- The searches, with those of a list marked as run at `now`, one after the other.
unfoldable mark_each : Time → List RecurringSearch → Map RecurringSearch → Map RecurringSearch
mark_each now [] m = m
mark_each now (r ∷ due) m = mark_each now due (modify r.id (Recurring.mark_ran now) m)

-- What a tick makes of a stored search.
abbrev pub after_tick : Time → RecurringSearch → RecurringSearch
after_tick now r = if is_due now r then Recurring.mark_ran now r else r

abbrev pub HasCleanKeyword : RecurringSearch → Type 0
HasCleanKeyword r = IsClean max_keyword_len r.keyword

module _ {X : Type 0} (add_f64 : ℕ → ℕ → ℕ) (send : ResearchJob → List Text → Port X Unit)
    (daily_quota : ℕ) (job_error_text : JobError → Text) (now : Time) where
  -- A turn or a loop that succeeds, launching at most `bound` jobs and marking the given searches.
  abbrev Marks : ℕ → Map RecurringSearch → Result PortError ℕ × World X → Type 0
  Marks bound searches r = (n : ℕ) × (r.0 ≡ ok n) × (n ≤ bound) × (r.1.searches ≡ searches)
