-- ===== src/InMemory/Searches.antt =====
-- `InMemoryRecurringSearchRepository`: the saved searches.
use ai_agent_boilerplate.Prelude.{
  ℕ, ◌-◌, Bool, true, false, not, Option, none, some, List, leb, ◌==◌, if◌then◌else◌, length,
  filter,
}
use ai_agent_boilerplate.Exec.{ok}
use ai_agent_boilerplate.Map
use ai_agent_boilerplate.Map.{Map, get, values, retain, modify, remove}
use ai_agent_boilerplate.Sort.{sort_by}
use ai_agent_boilerplate.Domain.{Uuid, Time}
use ai_agent_boilerplate.Domain.Recurring
use ai_agent_boilerplate.Domain.Recurring.{RecurringSearch, is_due}
use ai_agent_boilerplate.Ports.{Port}

abbrev pub Searches : Type 0
Searches = Map RecurringSearch

unfoldable pub insert : RecurringSearch → Port Searches Unit
insert search s = (ok tt, Map.insert search.id search s)

unfoldable pub find : Uuid → Port Searches (Option RecurringSearch)
find id s = (ok (get id s), s)

abbrev pub newest_search_first : RecurringSearch → RecurringSearch → Bool
newest_search_first a b = leb b.created_at a.created_at

unfoldable pub list_for_user : Uuid → Port Searches (List RecurringSearch)
list_for_user user_id s =
    (ok (sort_by newest_search_first (filter (λ r. r.user_id == user_id) (values s))), s)

abbrev pub delete_found : Uuid → Uuid → Option RecurringSearch → Port Searches Bool
delete_found user_id id none s = (ok false, s)
delete_found user_id id (some r) s =
    if r.user_id == user_id then (ok true, remove id s) else (ok false, s)

unfoldable pub delete : Uuid → Uuid → Port Searches Bool
delete user_id id s = delete_found user_id id (get id s) s

unfoldable pub delete_all_for_user : Uuid → Port Searches ℕ
delete_all_for_user user_id s =
    let kept = retain (λ _ r. not (r.user_id == user_id)) s in (ok (length s - length kept), kept)

unfoldable pub list_due : Time → Port Searches (List RecurringSearch)
list_due now s = (ok (filter (is_due now) (values s)), s)

unfoldable pub mark_ran : Uuid → Time → Port Searches Unit
mark_ran id at s = (ok tt, modify id (Recurring.mark_ran at) s)
