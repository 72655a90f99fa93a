-- ===== src/InMemory/Examples.antt =====
-- The theorems on the repositories, each at a concrete input.
use ai_agent_boilerplate.Prelude.{ℕ, ◌≡◌, refl, some, List, [], ◌∷◌}
use ai_agent_boilerplate.Text.{codes}
use ai_agent_boilerplate.Map.{get}
use ai_agent_boilerplate.Domain.Job.{
  ResearchJob, JobUsage, AgentStep, fresh_job, no_usage, completed,
}
use ai_agent_boilerplate.InMemory.Jobs.{InMemoryJobRepository}
use ai_agent_boilerplate.InMemory.Jobs.Usage
use ai_agent_boilerplate.InMemory.Jobs.Usage.{lifecycle, spent, write_all, total, usage_accumulates}
use ai_agent_boilerplate.InMemory.Jobs.Journal.{journal_of, append_all, redelivered-IsJournal}

abbrev job : ResearchJob
job = fresh_job 1 5999 2 (codes "rust")

abbrev store : InMemoryJobRepository
store = record {
  jobs = (1, record job { status = completed; completed_at = some 6000 }) ∷ [];
  results = (1, []) ∷ [];
  steps = [];
}

abbrev attempt : JobUsage
attempt = record no_usage { llm_calls = 3; search_calls = 1 }

abbrev writes : List Usage.Write
writes = spent attempt ∷ lifecycle job ∷ spent attempt ∷ []

usage_accumulates_example :
    (j' : ResearchJob) × (get 1 (write_all (λ a b. a) 1 writes store).jobs ≡ some j')
    × (j'.usage ≡ total (λ a b. a) no_usage writes)
unfolding get
usage_accumulates_example =
    usage_accumulates (λ a b. a) 1 writes
      (record job { status = completed; completed_at = some 6000 }) store (refl, tt) refl

abbrev step : ℕ → AgentStep
step n = record { seq = n; kind = codes "search"; detail = []; reason = []; new_hits = 0 }

redelivered-IsJournal_example :
    journal_of 1 (append_all 1 (step 2 ∷ step 1 ∷ step 2 ∷ step 1 ∷ []) store)
    ≡ journal_of 1 (append_all 1 (step 2 ∷ step 1 ∷ []) store)
unfolding get
redelivered-IsJournal_example =
    (redelivered-IsJournal 1 (step 2 ∷ step 1 ∷ []) store
      (record { ordered = tt; distinct = tt })).0
