-- ===== src/Domain/Recurring/Schedule.antt =====
-- What `new` accepts, and when a saved search is due.
use ai_agent_boilerplate.Prelude.{ℕ, ◌+◌, ◌≤◌, ◌≡◌, ◌↔◌, true, false, Option, none, some, arith}
use ai_agent_boilerplate.Exec.{ok}
use ai_agent_boilerplate.Text.{Text}
use ai_agent_boilerplate.Text.Trim.{trim_idem}
use ai_agent_boilerplate.Domain.{Uuid, Time, minutes}
use ai_agent_boilerplate.Domain.Job.{JobMode, max_keyword_len}
use ai_agent_boilerplate.Domain.Job.Lifecycle.{IsClean}
use ai_agent_boilerplate.Domain.Recurring.{
  RecurringSearch, min_interval_minutes, max_interval_minutes, max_webhook_url_len, is_web_url, new,
  is_due, mark_ran,
}

abbrev IsWebhook : Option Text → Type 0
IsWebhook none = Unit
IsWebhook (some url) = IsClean max_webhook_url_len url × (is_web_url url ≡ true)

pub record IsValid (s : RecurringSearch) : Type 0 where
  pub keyword_clean : IsClean max_keyword_len s.keyword
  pub interval_low : min_interval_minutes ≤ s.interval_minutes
  pub interval_high : s.interval_minutes ≤ max_interval_minutes
  pub webhook_clean : IsWebhook s.webhook_url

-- A saved search that new accepts has a trimmed keyword of 1 to 200 characters, an interval of
-- one minute to seven days, a webhook that is absent or a trimmed http(s) URL of at most 2048
-- characters, and has never run.
pub saved_search-IsValid :
    (id : Uuid) (now : Time) (user_id : Uuid) (keyword : Text) (mode : JobMode) (interval : ℕ)
    (webhook_url : Option Text) {s : RecurringSearch}
    → new id now user_id keyword mode interval webhook_url ≡ ok s
    → IsValid s × (s.last_run_at ≡ none)
unfolding new
saved_search-IsValid id now user_id keyword mode interval none e = ground (arith, trim_idem keyword)
saved_search-IsValid id now user_id keyword mode interval (some url) e =
    ground (arith, trim_idem keyword, trim_idem url)

pub new_owner :
    (id : Uuid) (now : Time) (user_id : Uuid) (keyword : Text) (mode : JobMode) (interval : ℕ)
    (webhook_url : Option Text) {s : RecurringSearch}
    → new id now user_id keyword mode interval webhook_url ≡ ok s
    → s.user_id ≡ user_id
unfolding new
new_owner id now user_id keyword mode interval none e = ground arith
new_owner id now user_id keyword mode interval (some url) e = ground arith

pub mark_ran-IsValid : (at : Time) {s : RecurringSearch} → IsValid s → IsValid (mark_ran at s)
unfolding mark_ran
mark_ran-IsValid at v = ground arith

-- After a run at a time, a valid search is due again exactly when its interval has passed, and
-- is not due at that time itself.
pub is_due-mark_ran :
    (at now : Time) (s : RecurringSearch)
    → IsValid s
    → ((is_due now (mark_ran at s) ≡ true) ↔ (at + minutes s.interval_minutes ≤ now))
      × (is_due at (mark_ran at s) ≡ false)
unfolding is_due mark_ran
is_due-mark_ran at now s v = grind arith
