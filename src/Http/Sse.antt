-- ===== src/Http/Sse.antt =====
-- backend/src/adapters/http/sse.rs: the stream of a job's updates. The stream is pulled, one event
-- at a time; a pull reads the job until its payload changes and sleeps in between. Times are in
-- milliseconds. The parameters are the store, `serde_json`'s text of the payload, the time since
-- the stream started, and what the world is after a sleep, during which others write to it.
pub mod Pulls
pub mod Stream
use ai_agent_boilerplate.Prelude.{
  ℕ, zero, suc, ◌*◌, Bool, true, false, Option, none, some, leb, if◌then◌else◌,
}
use ai_agent_boilerplate.Text.{Text, text_eq}
use ai_agent_boilerplate.Exec.{Result, ok, err}
use ai_agent_boilerplate.Domain.{Uuid}
use ai_agent_boilerplate.Domain.Job.{
  ResearchJob, JobStatus, awaiting_input, pending, running, completed, failed, is_finished,
}
use ai_agent_boilerplate.Ports.{PortError, JobRepository}
use ai_agent_boilerplate.Application.Queries
use ai_agent_boilerplate.Application.Queries.{Detail}
use ai_agent_boilerplate.Http.Views.{JobDetailView, job_detail}

abbrev pub poll_interval_ms : ℕ
poll_interval_ms = 1_000

abbrev pub idle_poll_interval : ℕ
idle_poll_interval = 15 * 1_000

abbrev pub max_stream_lifetime : ℕ
max_stream_lifetime = 30 * 60 * 1_000

unfoldable pub poll_interval : JobStatus → ℕ → ℕ → ℕ
poll_interval awaiting_input idle active = idle
poll_interval pending idle active = active
poll_interval running idle active = active
poll_interval completed idle active = active
poll_interval failed idle active = active

pub record StreamState : Type 0 where
  pub user_id : Uuid
  pub job_id : Uuid
  pub last_payload : Option Text
  pub finished : Bool
  pub max_lifetime : ℕ
  pub idle_interval : ℕ
  pub active_interval : ℕ

-- The stream before its first pull.
abbrev pub job_updates : Uuid → Uuid → StreamState
job_updates user_id job_id = record {
  user_id = user_id;
  job_id = job_id;
  last_payload = none;
  finished = false;
  max_lifetime = max_stream_lifetime;
  idle_interval = idle_poll_interval;
  active_interval = poll_interval_ms;
}

-- A pull ends the stream or yields an event; `unsettled` stands for turns that have run out.
pub data Pull : Type 0 where
  ended : Pull
  update : Text → StreamState → Pull
  unsettled : Pull

abbrev pub is_last : Option Text → Text → Bool
is_last none payload = false
is_last (some last) payload = text_eq last payload

module _ {S : Type 0} (jobs : JobRepository S) (to_json : JobDetailView → Text) (elapsed : S → ℕ)
    (sleep : ℕ → S → S) where
  -- The rest of a turn, after the read; `again` is the next turn.
  abbrev pub after_payload : StreamState → ResearchJob → Text → Bool → (S → Pull × S) → S → Pull × S
  after_payload state job payload true again s =
      again (sleep (poll_interval job.status state.idle_interval state.active_interval) s)
  after_payload state job payload false again s =
      (update payload (record state { last_payload = some payload; finished = is_finished job }), s)

  abbrev pub after_read :
      StreamState → (S → Pull × S) → Result PortError (Option Detail) → S → Pull × S
  after_read state again (ok (some (job, results, steps))) s =
      let payload = to_json (job_detail job results steps) in
      after_payload state job payload (is_last state.last_payload payload) again s
  after_read state again (ok none) s = (ended, s)
  after_read state again (err e) s = (ended, s)

  abbrev pub turn : StreamState → (S → Pull × S) → Bool → S → Pull × S
  turn state again true s = (ended, s)
  turn state again false s =
      after_read state again (Queries.get jobs state.user_id state.job_id s).0
        (Queries.get jobs state.user_id state.job_id s).1

  -- The `loop`, for a number of turns.
  unfoldable pub poll : ℕ → StreamState → S → Pull × S
  poll zero state s = (unsettled, s)
  poll (suc turns) state s = turn state (poll turns state) (leb state.max_lifetime (elapsed s)) s

  -- The closure of `unfold`.
  unfoldable pub pull : ℕ → StreamState → S → Pull × S
  unfolding poll
  pull turns state s = if state.finished then (ended, s) else poll turns state s
