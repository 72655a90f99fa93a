-- ===== src/Domain/Job/Retries.antt =====
-- Redelivered notifications: a call that is repeated has no further effect.
use ai_agent_boilerplate.Prelude.{◌≡◌, arith}
use ai_agent_boilerplate.Domain.Job.{ResearchJob}
use ai_agent_boilerplate.Domain.Job.Lifecycle.{JobEvent, apply}

-- The same notification, delivered a second time with nothing between, changes nothing (a second
-- completion or failure at the same clock value; a later one only moves the time stamp).
pub apply_idem : (e : JobEvent) (j : ResearchJob) → apply e (apply e j) ≡ apply e j
unfolding apply
apply_idem e j = ground arith
