-- ===== src/InMemory/Jobs/Usage.antt =====
-- The accumulated spend of a job (ADR-038) against lifecycle updates.
use ai_agent_boilerplate.Prelude.{
  ℕ, ◌≡◌, refl, Option, none, some, List, [], ◌∷◌, arith, ◌==◌, if◌then◌else◌, ==-refl,
}
use ai_agent_boilerplate.Map
use ai_agent_boilerplate.Map.{Map, get}
use ai_agent_boilerplate.Map.Laws.{get-insert, get-modify}
use ai_agent_boilerplate.Domain.{Uuid}
use ai_agent_boilerplate.Domain.Job.{ResearchJob, JobUsage, add}
use ai_agent_boilerplate.InMemory.Jobs.{InMemoryJobRepository, update, add_usage, keep_usage}

-- A write to one job: a lifecycle update of any handler, which carries whatever usage it read
-- before, or the spend of one task attempt.
pub data Write : Type 0 where
  lifecycle : ResearchJob → Write
  spent : JobUsage → Write

abbrev pub IsFor : Uuid → List Write → Type 0
IsFor id [] = Unit
IsFor id (lifecycle job ∷ ws) = (job.id ≡ id) × IsFor id ws
IsFor id (spent usage ∷ ws) = IsFor id ws

abbrev usage_of : Option ResearchJob → Option JobUsage
usage_of none = none
usage_of (some j) = some j.usage

module _ (add_f64 : ℕ → ℕ → ℕ) where
  pub write : Uuid → Write → InMemoryJobRepository → InMemoryJobRepository
  unfolding update add_usage
  write id (lifecycle job) s = (update job s).1
  write id (spent usage) s = (add_usage add_f64 id usage s).1

  pub write_all : Uuid → List Write → InMemoryJobRepository → InMemoryJobRepository
  write_all id [] s = s
  write_all id (w ∷ ws) s = write_all id ws (write id w s)

  -- The spend that the attempts add up to, in order.
  pub total : JobUsage → List Write → JobUsage
  total u [] = u
  total u (lifecycle job ∷ ws) = total u ws
  total u (spent usage ∷ ws) = total (add add_f64 u usage) ws

  write-usage :
      (id : Uuid) (w : Write) (j : ResearchJob) (s : InMemoryJobRepository)
      → IsFor id (w ∷ [])
      → get id s.jobs ≡ some j
      → (j' : ResearchJob) × (get id (write id w s).jobs ≡ some j')
        × (j'.usage ≡ total j.usage (w ∷ []))
  unfolding write total
  write-usage id (lifecycle job) j s h e = (
    record job { usage = j.usage },
    ground (arith, get-insert job.id id (keep_usage job (get job.id s.jobs)) s.jobs, ==-refl id),
    refl,
  )
  write-usage id (spent usage) j s h e = (
    record j { usage = add add_f64 j.usage usage },
    ground (
      arith,
      get-modify id id (λ (k : ResearchJob). record k { usage = add add_f64 k.usage usage }) s.jobs,
      ==-refl id,
    ),
    refl,
  )

  -- However lifecycle updates of a stored job and usage reports interleave, and whatever stale
  -- usage an update carries, the job's spend is what it was plus what the reports added.
  pub usage_accumulates :
      (id : Uuid) (ws : List Write) (j : ResearchJob) (s : InMemoryJobRepository)
      → IsFor id ws
      → get id s.jobs ≡ some j
      → (j' : ResearchJob) × (get id (write_all id ws s).jobs ≡ some j')
        × (j'.usage ≡ total j.usage ws)
  unfolding write_all total
  usage_accumulates id [] j s h e = (j, e, refl)
  usage_accumulates id (lifecycle job ∷ ws) j s h e =
      let (j₁, e₁, u₁) = write-usage id (lifecycle job) j s (h.0, tt) e in
      let (j₂, e₂, u₂) = usage_accumulates id ws j₁ (write id (lifecycle job) s) h.1 e₁ in
      (j₂, e₂, rw u₁ at u₂)
  usage_accumulates id (spent usage ∷ ws) j s h e =
      let (j₁, e₁, u₁) = write-usage id (spent usage) j s tt e in
      let (j₂, e₂, u₂) = usage_accumulates id ws j₁ (write id (spent usage) s) h e₁ in
      (j₂, e₂, rw u₁ at u₂)

-- Updating a stored job with a version of it that has its identifier and spend.
pub store_version :
    (id : Uuid) (old job : ResearchJob) (m : Map ResearchJob) (other : Uuid)
    → get id m ≡ some old
    → job.id ≡ id
    → job.usage ≡ old.usage
    → get other (Map.insert job.id (keep_usage job (get job.id m)) m)
      ≡ (if id == other then some job else get other m)
store_version id old job m other h e u =
    ground (arith, get-insert job.id other (keep_usage job (get job.id m)) m)
