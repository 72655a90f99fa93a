-- ===== src/Application/Examples.antt =====
-- The theorems on the use cases, each at a concrete input.
use ai_agent_boilerplate.Prelude.{
  ℕ, ◌+◌, ◌-◌, ◌≤◌, max, ◌≡◌, refl, Option, none, some, List, [], ◌∷◌, length, filter,
}
use ai_agent_boilerplate.Text.{Text, codes, text_eq}
use ai_agent_boilerplate.Exec.{ok, err}
use ai_agent_boilerplate.Map.{get, values, find_value}
use ai_agent_boilerplate.Domain.{Uuid, hours}
use ai_agent_boilerplate.Domain.Job.{agent}
use ai_agent_boilerplate.Application.Fixtures.{
  alice, bob, noon, token, world, agent_send, error_text, hash, jwt, draw, draws, no_floats, hasher,
  embed_send,
}
use ai_agent_boilerplate.Application.IngestResults.Callbacks.{
  Callback, started_now, delivered, gave_up, asks,
}
use ai_agent_boilerplate.Application.LaunchSearch.Outcomes.{launch, LaunchOutcome, launch_outcome}
use ai_agent_boilerplate.Application.LaunchSearch.Quota.{used, launch_quota}
use ai_agent_boilerplate.Application.RefreshSession.{Moment, invalid_token}
use ai_agent_boilerplate.Application.RefreshSession.Reuse.{
  turn, replay_revokes, reuse_revokes_family,
}
use ai_agent_boilerplate.Application.RunDueSearches.Tick.{tick, tick_quota}
use ai_agent_boilerplate.Application.AnswerClarification.{owned_by}
use ai_agent_boilerplate.Application.AnswerClarification.Outcomes.{
  reply, ReplyOutcome, reply_outcome,
}
use ai_agent_boilerplate.Application.FailStaleJobs
use ai_agent_boilerplate.Application.RegisterUser.Accounts.{
  register, RegisterOutcome, register_outcome,
}
use ai_agent_boilerplate.Application.Knowledge.Scope.{Retrieval, retrieve-Retrieval}
use ai_agent_boilerplate.Application.FailStaleJobs.Reaped.{reaped_exactly}
use ai_agent_boilerplate.Application.DeleteAccount.Erased.{erase, erased}
use ai_agent_boilerplate.Application.Queries
use ai_agent_boilerplate.Application.Queries.{Detail}
use ai_agent_boilerplate.Application.Queries.Ownership.{Shows, get_owned}
use ai_agent_boilerplate.InMemory.Jobs.{is_stale, or_empty}
use ai_agent_boilerplate.InMemory.World.{World, job_repository}
use ai_agent_boilerplate.Domain.RefreshToken.{is_consumed, is_expired}

abbrev calls : List Callback
calls = asks (codes "which?") ∷ gave_up noon (codes "lost") ∷ delivered noon [] ∷ started_now ∷ []

launch_outcome_example :
    let r = launch (λ a b. a) agent_send 5 noon draw alice (codes " rust ") agent world in
    LaunchOutcome (λ a b. a) agent_send 5 noon draw alice (codes " rust ") agent world r.0 r.1
launch_outcome_example =
    launch_outcome (λ a b. a) agent_send 5 noon draw alice (codes " rust ") agent world

launch_quota_example :
    used alice
      (noon - hours 24)
      (launch (λ a b. a) agent_send 5 noon draw alice (codes " rust ") agent world).1
    ≤ max 5 (used alice (noon - hours 24) world)
launch_quota_example =
    launch_quota (λ a b. a) agent_send 5 noon draw alice (codes " rust ") agent alice world

abbrev moment : Moment
moment = record {
  checked = noon;
  consumed = noon;
  issued = noon;
  draw = record { id = 31; plaintext = codes "b" };
  event_id = 50;
  event_at = noon;
}

abbrev print_family : Uuid → Text
print_family family = codes "family"

replay_revokes_example :
    let w : World ℕ = record world {
      tokens = (30, record token { consumed_at = some noon }) ∷ [];
    } in
    (turn hash print_family jwt 7 moment (codes "a") w).0 ≡ err invalid_token
unfolding find_value text_eq is_consumed
replay_revokes_example =
    (replay_revokes hash print_family jwt 7 moment (codes "a")
      (record token { consumed_at = some noon })
      (record world { tokens = (30, record token { consumed_at = some noon }) ∷ [] }) refl refl).0

reuse_revokes_family_example :
    (turn hash print_family jwt 7 moment
      (codes "a")
      (turn hash print_family jwt 7 moment (codes "a") world).1).0
    ≡ err invalid_token
unfolding get find_value text_eq is_consumed is_expired
reuse_revokes_family_example =
    (reuse_revokes_family hash print_family jwt 7 moment moment (codes "a") (codes "jwt") token
      world (refl, tt) (refl, tt) refl refl refl refl refl refl).1

tick_quota_example :
    used alice (noon - hours 24) (tick (λ a b. a) agent_send 1 error_text noon draws world).1
    ≤ max 1 (used alice (noon - hours 24) world)
tick_quota_example = tick_quota (λ a b. a) agent_send 1 error_text noon alice draws world

reply_outcome_example :
    let r = reply (λ a b. a) agent_send noon alice 11 (codes " the car ") world in
    ReplyOutcome (λ a b. a) agent_send noon alice 11 (codes " the car ") world r.0 r.1
reply_outcome_example =
    reply_outcome (λ a b. a) agent_send noon alice 11 (codes " the car ") world
      (refl, (refl, (refl, tt)))

reaped_exactly_example :
    (FailStaleJobs.execute
      (job_repository (λ a b. a))
      (λ t. ok t)
      print_family
      (hours 2)
      noon
      (λ n. noon + n)
      world).0
    ≡ ok (length (filter (is_stale (noon - hours 2)) (values world.jobs.jobs)))
unfolding get
reaped_exactly_example =
    (reaped_exactly (λ a b. a) (λ t. ok t) print_family (hours 2) noon (λ n. noon + n) 10 world
      (record { unique = (refl, (refl, (refl, tt))); keyed = (refl, (refl, (refl, tt))) }) (hours 2)
      refl).0

erased_example : get alice (erase (λ a b. a) no_floats alice world).users ≡ none
erased_example = (erased (λ a b. a) no_floats alice world).0

get_owned_example :
    (shown : Option Detail) × (Queries.get (job_repository (λ a b. a)) bob 10 world
      ≡ (ok shown, world))
    × Shows
        (owned_by bob (get 10 world.jobs.jobs))
        (or_empty (get 10 world.jobs.results))
        (or_empty (get 10 world.jobs.steps))
        shown
get_owned_example = get_owned (λ a b. a) bob 10 world

register_outcome_example :
    let r =
      register (λ t. t) hasher 3 noon (codes " carol@example.org") (codes "password1") world in
    RegisterOutcome
      (λ t. t)
      hasher
      3
      noon
      (codes " carol@example.org")
      (codes "password1")
      world
      r.0
      r.1
unfolding get
register_outcome_example =
    register_outcome (λ t. t) hasher 3 noon (codes " carol@example.org") (codes "password1") world
      refl tt

retrieve-Retrieval_example :
    Retrieval (λ a b. a) no_floats embed_send 10 [] 3 world (get 10 world.jobs.jobs)
retrieve-Retrieval_example = retrieve-Retrieval (λ a b. a) no_floats embed_send 10 [] 3 world
