-- ===== src/InMemory/Audit.antt =====
-- `InMemorySecurityAudit`: the audit log, oldest event first.
use ai_agent_boilerplate.Prelude.{ℕ, ◌-◌, List, [], ◌∷◌, ◌++◌, leb, length, take, filter}
use ai_agent_boilerplate.Exec.{ok}
use mathlib.Core.List.{reverse}
use ai_agent_boilerplate.Domain.{Time}
use ai_agent_boilerplate.Domain.SecurityEvent.{SecurityEvent}
use ai_agent_boilerplate.Ports.{Port}

abbrev pub Events : Type 0
Events = List SecurityEvent

unfoldable pub record_event : SecurityEvent → Port Events Unit
record_event event s = (ok tt, s ++ event ∷ [])

-- `limit.max(0)` of an `i64`: the limit is taken as that natural number.
unfoldable pub list_recent : ℕ → Port Events (List SecurityEvent)
list_recent limit s = (ok (take limit (reverse s)), s)

unfoldable pub delete_before : Time → Port Events ℕ
delete_before cutoff s =
    let kept = filter (λ e. leb cutoff e.created_at) s in (ok (length s - length kept), kept)
