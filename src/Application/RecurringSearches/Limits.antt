-- ===== src/Application/RecurringSearches/Limits.antt =====
-- The cap on saved searches, and who may delete one, over the in-memory stack.
use ai_agent_boilerplate.Prelude.{
  ℕ, ◌≤◌, ◌<◌, max, ◌≡◌, refl, ap, inl, inr, Bool, false, Option, arith, leb, ◌==◌, if◌then◌else◌,
  ==_iff, Bool-cases, Option-cases, length, filter,
}
use ai_agent_boilerplate.Text.{Text}
use ai_agent_boilerplate.Exec.{ok, err, Result-cases}
use ai_agent_boilerplate.Map
use ai_agent_boilerplate.Map.{Map, get, values, remove}
use ai_agent_boilerplate.Map.Keyed.{passes}
use ai_agent_boilerplate.Sort.{sort_by}
use ai_agent_boilerplate.Sort.Laws.{length-sort_by}
use ai_agent_boilerplate.Domain.{Uuid, Time}
use ai_agent_boilerplate.Domain.Job.{JobMode}
use ai_agent_boilerplate.Domain.Recurring.{RecurringSearch, new}
use ai_agent_boilerplate.Domain.Recurring.Schedule.{new_owner}
use ai_agent_boilerplate.InMemory.Searches
use ai_agent_boilerplate.InMemory.Searches.{newest_search_first}
use ai_agent_boilerplate.InMemory.Jobs.Counting.{count_where, count_where_lem, count-insert}
use ai_agent_boilerplate.InMemory.World.{World, search_repository}
use ai_agent_boilerplate.Application.RecurringSearches.{create, delete, max_per_user, not_found}

abbrev pub owned : Uuid → RecurringSearch → Bool
owned user_id r = r.user_id == user_id

-- Below the cap, by the number that `list_for_user` returns.
below_cap :
    (user_id : Uuid) (m : Map RecurringSearch)
    → leb max_per_user (length (sort_by newest_search_first (filter (owned user_id) (values m))))
      ≡ false
    → count_where (owned user_id) m < max_per_user
below_cap user_id m h = ground (
  arith,
  count_where_lem (owned user_id) m,
  length-sort_by newest_search_first (filter (owned user_id) (values m)),
)

saved_within_cap :
    (u user_id : Uuid) (r : RecurringSearch) (m : Map RecurringSearch)
    → r.user_id ≡ user_id
    → count_where (owned user_id) m < max_per_user
    → count_where (owned u) (Map.insert r.id r m) ≤ max max_per_user (count_where (owned u) m)
saved_within_cap u user_id r m same below = ground (
  arith,
  count-insert (owned u) r.id r m,
  ==_iff user_id u,
  ap (λ v. count_where (owned v) m) {x = user_id} {y = u},
)

module _ {X : Type 0} where
  -- However the creation of a saved search ends, no user has more searches than the larger of
  -- the cap of 20 and what they had.
  pub create_capped :
      (u id : Uuid) (now : Time) (user_id : Uuid) (keyword : Text) (mode : JobMode) (interval : ℕ)
      (webhook_url : Option Text) (w : World X)
      → count_where
          (owned u)
          (create search_repository id now user_id keyword mode interval webhook_url w).1.searches
        ≤ max max_per_user (count_where (owned u) w.searches)
  unfolding create Searches.list_for_user Searches.insert
  create_capped u id now user_id keyword mode interval webhook_url w =
      elim (Bool-cases (
        leb max_per_user
          (length (sort_by newest_search_first (filter (owned user_id) (values w.searches)))))) [
            | inl full ↦ rw full (omega arith)
            | inr left ↦
                elim (Result-cases (new id now user_id keyword mode interval webhook_url)) [
                  | inr (e, bad) ↦ rw (left, bad) (omega arith)
                  | inl (r, good) ↦
                      let fits = below_cap user_id w.searches left in
                      rw (left, good)
                        (saved_within_cap u user_id r w.searches
                          (new_owner id now user_id keyword mode interval webhook_url good) fits)
                ]
          ]

  -- A user deletes their own saved search and nothing else changes; any other, or an unknown
  -- one, is not found and nothing changes.
  pub delete_own :
      (user_id id : Uuid) (w : World X)
      → let own = passes (owned user_id) (get id w.searches) in
        delete search_repository user_id id w ≡ (
          if own then (ok tt, record w { searches = remove id w.searches }) else (err not_found, w))
  unfolding delete Searches.delete
  delete_own user_id id w = elim (Option-cases (get id w.searches)) [
    | inl missing ↦ rw missing refl
    | inr (r, found) ↦ elim (Bool-cases (r.user_id == user_id)) [
      | inl own ↦ rw (found, own) refl
      | inr foreign ↦ rw (found, foreign) refl
    ]
  ]
