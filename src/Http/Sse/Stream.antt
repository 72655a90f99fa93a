-- ===== src/Http/Sse/Stream.antt =====
-- What a client sees of the stream.
use mathlib.Core.Path.{subst}
use ai_agent_boilerplate.Prelude.{
  ℕ, zero, suc, ◌≡◌, refl, inl, inr, Bool, true, false, Option, none, some, List, [], ◌∷◌, leb,
  if◌then◌else◌, Bool-cases,
}
use ai_agent_boilerplate.Text.{Text}
use ai_agent_boilerplate.Exec.{Result, ok, err}
use ai_agent_boilerplate.Domain.{Uuid}
use ai_agent_boilerplate.Domain.Job.{ResearchJob, is_finished}
use ai_agent_boilerplate.Ports.{PortError, JobRepository}
use ai_agent_boilerplate.Application.Queries
use ai_agent_boilerplate.Application.Queries.{Detail}
use ai_agent_boilerplate.Http.Views.{JobDetailView, job_detail}
use ai_agent_boilerplate.Http.Sse.{
  StreamState, Pull, ended, update, unsettled, is_last, after_payload, after_read, poll, pull,
}

-- An event of the stream: its payload, whether the job in it is in a terminal state, and the state
-- of the world that the pull leaves.
pub record Event (S : Type 0) : Type 0 where
  pub payload : Text
  pub terminal : Bool
  pub left : S

-- An event that ends the stream is the last one.
abbrev pub Closes : {S : Type 0} → Bool → List (Event S) → Type 0
Closes false events = Unit
Closes true [] = Unit
Closes true (e ∷ events) = ⊥

close :
    {S : Type 0} {terminal : Bool} (events : List (Event S))
    → (terminal ≡ true → events ≡ [])
    → Closes terminal events
close {terminal = false} events h = tt
close {terminal = true} events h = rw (h refl) tt

-- `meanwhile` is what others do to the world after a pull, with that many pulls to come.
module _ {S : Type 0} (jobs : JobRepository S) (to_json : JobDetailView → Text) (elapsed : S → ℕ)
    (sleep : ℕ → S → S) (meanwhile : ℕ → S → S) where
  -- The payload is that of the user's job as it was read, by the read that left the world so.
  abbrev pub Shows : Uuid → Uuid → Text → Bool → S → Type 0
  Shows user_id job_id payload terminal left =
      (before : S) × (detail : Detail) × (Queries.get jobs user_id job_id before
        ≡ (ok (some detail), left))
      × (payload ≡ to_json (job_detail detail.0 detail.1 detail.2))
      × (terminal ≡ is_finished detail.0)

  -- The events of a stream of a user's job after one with the payload `last`.
  abbrev pub IsFeed : Uuid → Uuid → Option Text → List (Event S) → Type 0
  IsFeed user_id job_id last [] = Unit
  IsFeed user_id job_id last (e ∷ events) =
      (is_last last e.payload ≡ false)
      × Shows user_id job_id e.payload e.terminal e.left
      × Closes e.terminal events
      × IsFeed user_id job_id (some e.payload) events

  -- The state goes on with the job and the payload.
  record Follows (state next : StreamState) (payload : Text) : Type 0 where
    pub same_user : next.user_id ≡ state.user_id
    pub same_job : next.job_id ≡ state.job_id
    pub remembered : next.last_payload ≡ some payload

  abbrev Yields : StreamState → Pull → S → Type 0
  Yields state ended s = Unit
  Yields state unsettled s = Unit
  Yields state (update payload next) s =
      (is_last state.last_payload payload ≡ false)
      × Shows state.user_id state.job_id payload next.finished s
      × Follows state next payload

  after_payload-Yields :
      (state : StreamState) (job : ResearchJob) (payload : Text) (same : Bool)
      (again : S → Pull × S) (s : S)
      → is_last state.last_payload payload ≡ same
      → Shows state.user_id state.job_id payload (is_finished job) s
      → ((s' : S) → Yields state (again s').0 (again s').1)
      → let r = after_payload jobs to_json elapsed sleep state job payload same again s in
        Yields state r.0 r.1
  after_payload-Yields state job payload true again s e shows h = h _
  after_payload-Yields state job payload false again s e shows h =
      (e, shows, record { same_user = refl; same_job = refl; remembered = refl })

  after_read-Yields :
      (state : StreamState) (again : S → Pull × S) (before : S)
      (r : Result PortError (Option Detail)) (s : S)
      → Queries.get jobs state.user_id state.job_id before ≡ (r, s)
      → ((s' : S) → Yields state (again s').0 (again s').1)
      → let p = after_read jobs to_json elapsed sleep state again r s in Yields state p.0 p.1
  after_read-Yields state again before (ok (some (job, results, steps))) s e h =
      let payload = to_json (job_detail job results steps) in
      after_payload-Yields state job payload _ again s refl
        (before, (job, results, steps), e, refl, refl) h
  after_read-Yields state again before (ok none) s e h = tt
  after_read-Yields state again before (err m) s e h = tt

  poll-Yields :
      (turns : ℕ) (state : StreamState) (s : S)
      → let p = poll jobs to_json elapsed sleep turns state s in Yields state p.0 p.1
  unfolding poll
  poll-Yields zero state s = tt
  poll-Yields (suc turns) state s = elim (Bool-cases (leb state.max_lifetime (elapsed s))) [
    | inl over ↦ rw over tt
    | inr early ↦ rw early (after_read-Yields state _ s _ _ refl (poll-Yields turns state))
  ]

  pull-Yields :
      (turns : ℕ) (state : StreamState) (s : S)
      → let p = pull jobs to_json elapsed sleep turns state s in Yields state p.0 p.1
  unfolding pull
  pull-Yields turns state s =
      elim state.finished
        as (λ b.
          let p = if b then (ended, s) else poll jobs to_json elapsed sleep turns state s in
          Yields state p.0 p.1) [ true ↦ tt | false ↦ poll-Yields turns state s ]

  -- The events of that many pulls, each of that many turns.
  abbrev pub next : ℕ → (StreamState → S → List (Event S)) → Pull → S → List (Event S)
  next pulls more ended s = []
  next pulls more unsettled s = []
  next pulls more (update payload state) s =
      record { payload = payload; terminal = state.finished; left = s }
      ∷ more state (meanwhile pulls s)

  unfoldable pub stream : ℕ → ℕ → StreamState → S → List (Event S)
  stream zero turns state s = []
  stream (suc pulls) turns state s =
      next pulls (stream pulls turns) (pull jobs to_json elapsed sleep turns state s).0
        (pull jobs to_json elapsed sleep turns state s).1

  stream_finished :
      (pulls turns : ℕ) (state : StreamState) (s : S)
      → state.finished ≡ true
      → stream pulls turns state s ≡ []
  unfolding stream pull
  stream_finished zero turns state s h = refl
  stream_finished (suc pulls) turns state s h = rw h

  recast :
      {u u' j j' : Uuid} {last last' : Option Text} (events : List (Event S))
      → u ≡ u'
      → j ≡ j'
      → last ≡ last'
      → IsFeed u j last events
      → IsFeed u' j' last' events
  recast {u} {u'} {j} {j'} {last} {last'} events same_u same_j same_last h =
      subst (λ x. IsFeed x j' last' events) same_u
        (subst (λ x. IsFeed u x last' events) same_j (subst (λ x. IsFeed u j x events) same_last h))

  next-IsFeed :
      (pulls turns : ℕ) (state : StreamState) (p : Pull) (s : S)
      → ((state' : StreamState) (s' : S)
          → IsFeed state'.user_id state'.job_id state'.last_payload (stream pulls turns state' s'))
      → Yields state p s
      → IsFeed state.user_id state.job_id state.last_payload (next pulls (stream pulls turns) p s)
  next-IsFeed pulls turns state ended s h y = tt
  next-IsFeed pulls turns state unsettled s h y = tt
  next-IsFeed pulls turns state (update payload next_state) s h y =
      let w = meanwhile pulls s in
      (
        y.0,
        y.1,
        close (stream pulls turns next_state w) (stream_finished pulls turns next_state w),
        recast (stream pulls turns next_state w) y.2.same_user y.2.same_job y.2.remembered
            (h next_state w),
      )

  -- Whatever others do to the world between the pulls, each event of a stream shows the detail
  -- of the stream's job as the user read it, by a read that left the world as the pull does, no
  -- event repeats the payload of the one before, and an event with a terminal status is the
  -- last.
  pub stream-IsFeed :
      (pulls turns : ℕ) (state : StreamState) (s : S)
      → IsFeed state.user_id state.job_id state.last_payload (stream pulls turns state s)
  unfolding stream
  stream-IsFeed zero turns state s = tt
  stream-IsFeed (suc pulls) turns state s =
      next-IsFeed pulls turns state _ _ (stream-IsFeed pulls turns) (pull-Yields turns state s)
