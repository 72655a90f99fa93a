-- ===== src/Http/Sse/Pulls.antt =====
-- A pull of the stream ends, and what it yields.
use ai_agent_boilerplate.Prelude.{
  ℕ, zero, suc, ◌+◌, ◌≤◌, ◌<◌, ◌≡◌, refl, inl, inr, Bool, true, false, Option, none, some, arith,
  leb, if◌then◌else◌, le→leb, Bool-cases,
}
use ai_agent_boilerplate.Text.{Text}
use ai_agent_boilerplate.Exec.{Result, ok, err}
use ai_agent_boilerplate.Domain.Job.{
  ResearchJob, JobStatus, awaiting_input, pending, running, completed, failed,
}
use ai_agent_boilerplate.Ports.{PortError, JobRepository}
use ai_agent_boilerplate.Application.Queries
use ai_agent_boilerplate.Application.Queries.{Detail}
use ai_agent_boilerplate.Http.Views.{JobDetailView, job_detail}
use ai_agent_boilerplate.Http.Sse.{
  StreamState, Pull, ended, update, unsettled, after_payload, after_read, poll, pull, poll_interval,
}

-- The pull has ended the stream or yielded an event.
abbrev pub settled : Pull → Bool
settled ended = true
settled (update payload state) = true
settled unsettled = false

poll_interval-positive :
    (status : JobStatus) (idle active : ℕ)
    → 1 ≤ idle
    → 1 ≤ active
    → 1 ≤ poll_interval status idle active
unfolding poll_interval
poll_interval-positive awaiting_input idle active i a = i
poll_interval-positive pending idle active i a = a
poll_interval-positive running idle active i a = a
poll_interval-positive completed idle active i a = a
poll_interval-positive failed idle active i a = a

module _ {S : Type 0} (jobs : JobRepository S) (to_json : JobDetailView → Text) (elapsed : S → ℕ)
    (sleep : ℕ → S → S) where
  -- A read takes no negative time, and a sleep lasts as long as asked.
  module _
      (reads : (user_id job_id : ℕ) (s : S)
        → elapsed s ≤ elapsed (Queries.get jobs user_id job_id s).1)
      (sleeps : (wait : ℕ) (s : S) → elapsed s + wait ≤ elapsed (sleep wait s))
      (state : StreamState) (idle : 1 ≤ state.idle_interval)
      (active : 1 ≤ state.active_interval) where
    after_payload-settled :
        (job : ResearchJob) (payload : Text) (same : Bool) (again : S → Pull × S) (now : ℕ) (s : S)
        → ((s' : S) → suc now ≤ elapsed s' → settled (again s').0 ≡ true)
        → now ≤ elapsed s
        → settled (after_payload jobs to_json elapsed sleep state job payload same again s).0 ≡ true
    after_payload-settled job payload false again now s h p = refl
    after_payload-settled job payload true again now s h p = h _ (
        omega (
          arith,
          sleeps (poll_interval job.status state.idle_interval state.active_interval) s,
          poll_interval-positive job.status state.idle_interval state.active_interval idle active,
        ))

    after_read-settled :
        (r : Result PortError (Option Detail)) (again : S → Pull × S) (now : ℕ) (s : S)
        → ((s' : S) → suc now ≤ elapsed s' → settled (again s').0 ≡ true)
        → now ≤ elapsed s
        → settled (after_read jobs to_json elapsed sleep state again r s).0 ≡ true
    after_read-settled (ok (some (job, results, steps))) again now s h p =
        after_payload-settled job (to_json (job_detail job results steps)) _ again now s h p
    after_read-settled (ok none) again now s h p = refl
    after_read-settled (err e) again now s h p = refl

    poll-settled :
        (turns : ℕ) (s : S)
        → state.max_lifetime ≤ turns + elapsed s
        → settled (poll jobs to_json elapsed sleep (suc turns) state s).0 ≡ true
    unfolding poll
    poll-settled zero s p = rw (le→leb state.max_lifetime (elapsed s) (omega arith))
    poll-settled (suc turns) s p = elim (Bool-cases (leb state.max_lifetime (elapsed s))) [
      | inl over ↦ rw over
      | inr early ↦ rw early (
          after_read-settled (Queries.get jobs state.user_id state.job_id s).0
            (poll jobs to_json elapsed sleep (suc turns) state) (elapsed s)
            (Queries.get jobs state.user_id state.job_id s).1
            (λ s' q. poll-settled turns s' (omega arith)) (reads state.user_id state.job_id s))
    ]

    -- Where the polling intervals are not zero, reads take no negative time and a sleep lasts at
    -- least as long as asked, a pull of the event stream that is given more turns than its
    -- lifetime has milliseconds ends the stream or yields an event, whatever becomes of the job.
    pub pull_settles :
        (turns : ℕ) (s : S)
        → state.max_lifetime < turns
        → settled (pull jobs to_json elapsed sleep turns state s).0 ≡ true
    unfolding pull
    pull_settles zero s p = absurd (omega arith)
    pull_settles (suc turns) s p =
        elim state.finished
          as (λ b.
            settled
              (if b then (ended, s) else poll jobs to_json elapsed sleep (suc turns) state s).0
            ≡ true) [ true ↦ refl | false ↦ poll-settled turns s (omega arith) ]
