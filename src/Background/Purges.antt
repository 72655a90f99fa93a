-- ===== src/Background/Purges.antt =====
-- What a leader's tick leaves over the in-memory stack.
use ai_agent_boilerplate.Prelude.{ℕ, ◌-◌, Bool, not, ◌||◌, List, ltb, leb}
use ai_agent_boilerplate.Text.{Text}
use ai_agent_boilerplate.Exec.{Result}
use ai_agent_boilerplate.Domain.{Time, days}
use ai_agent_boilerplate.Domain.Job.{JobError, ResearchJob}
use ai_agent_boilerplate.Domain.SecurityEvent.{SecurityEvent}
use ai_agent_boilerplate.Ports.{
  Port, JobRepository, RecurringSearchRepository, RefreshTokenRepository, SecurityAudit,
  JobDispatcher,
}
use ai_agent_boilerplate.InMemory.Tokens
use ai_agent_boilerplate.InMemory.Audit
use ai_agent_boilerplate.InMemory.World.{
  World, job_repository, search_repository, token_repository, audit_log, dispatcher,
}
use ai_agent_boilerplate.Background.{Settings, TickDraw, LeaderLock, tick}

-- The event is young enough to be kept, where there is a retention.
abbrev pub is_retained : ℕ → Time → SecurityEvent → Bool
is_retained retention now e = not (ltb 0 retention) || leb (now - days retention) e.created_at

module _ {X : Type 0} (settings : Settings) (add_f64 : ℕ → ℕ → ℕ)
    (send : ResearchJob → List Text → Port X Unit) (acquire : X → Bool × X) (release : X → X)
    (from_std : ℕ → Result Text ℕ) (reason : ℕ → Text) (job_error_text : JobError → Text) where
  -- A lock that stands outside the process.
  abbrev pub lock : LeaderLock (World X)
  lock = record {
    acquire = λ w. ((acquire w.outside).0, record w { outside = (acquire w.outside).1 });
    release = λ w. record w { outside = release w.outside };
  }

  abbrev pub in_memory_tick : TickDraw → World X → World X
  in_memory_tick =
      tick settings (job_repository add_f64) search_repository token_repository audit_log
        (dispatcher send) lock from_std reason job_error_text

  abbrev step :
      (Settings
        → JobRepository (World X)
        → RecurringSearchRepository (World X)
        → RefreshTokenRepository (World X)
        → SecurityAudit (World X)
        → JobDispatcher (World X)
        → LeaderLock (World X)
        → (ℕ → Result Text ℕ)
        → (ℕ → Text)
        → (JobError → Text)
        → TickDraw
        → World X
        → World X)
      → TickDraw
      → World X
      → World X
  step f =
      f settings (job_repository add_f64) search_repository token_repository audit_log
        (dispatcher send) lock from_std reason job_error_text
