-- ===== src/Application/RecurringSearches.antt =====
-- backend/src/application/recurring_searches.rs: what a user does with saved searches.
pub mod Limits
use ai_agent_boilerplate.Prelude.{ℕ, Option, List, leb, if◌then◌else◌, length}
use ai_agent_boilerplate.Text.{Text}
use ai_agent_boilerplate.Exec.{◌>>=◌, ◌>>◌, Exec, pure, raise, from_result, convert, map_err}
use ai_agent_boilerplate.Domain.{Uuid, Time}
use ai_agent_boilerplate.Domain.Job.{JobError, JobMode}
use ai_agent_boilerplate.Domain.Recurring.{RecurringSearch, new}
use ai_agent_boilerplate.Ports.{PortError, RecurringSearchRepository}

pub data RecurringError : Type 0 where
  invalid : JobError → RecurringError
  not_found : RecurringError
  too_many : ℕ → RecurringError
  infrastructure : PortError → RecurringError

abbrev pub max_per_user : ℕ
max_per_user = 20

module _ {S : Type 0} (repo : RecurringSearchRepository S) where
  unfoldable pub create :
      Uuid → Time → Uuid → Text → JobMode → ℕ → Option Text → Exec RecurringError S RecurringSearch
  create id now user_id keyword mode interval webhook_url = do
    saved ← map_err infrastructure (repo.list_for_user user_id)
    if leb max_per_user (length saved) then raise (too_many max_per_user) else do
      r ← from_result (convert invalid (new id now user_id keyword mode interval webhook_url))
      map_err infrastructure (repo.insert r)
      pure r

  unfoldable pub list : Uuid → Exec RecurringError S (List RecurringSearch)
  list user_id = map_err infrastructure (repo.list_for_user user_id)

  unfoldable pub delete : Uuid → Uuid → Exec RecurringError S Unit
  delete user_id id = do
    deleted ← map_err infrastructure (repo.delete user_id id)
    if deleted then pure tt else raise not_found
