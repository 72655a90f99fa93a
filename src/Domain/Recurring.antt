-- ===== src/Domain/Recurring.antt =====
-- backend/src/domain/recurring.rs: a saved search, re-run on an interval.
pub mod Schedule
use ai_agent_boilerplate.Prelude.{
  ℕ, ◌+◌, ◌*◌, Bool, true, ◌&&◌, ◌||◌, Option, none, some, ltb, leb, if◌then◌else◌, length,
}
use ai_agent_boilerplate.Exec.{Result, ok, err}
use ai_agent_boilerplate.Text.{Text, codes, trim, is_empty, starts_with}
use ai_agent_boilerplate.Domain.{Uuid, Time, minutes, now_utc}
use ai_agent_boilerplate.Domain.Job.{
  JobMode, JobError, empty_keyword, keyword_too_long, invalid_interval, invalid_webhook_url,
  webhook_url_too_long, max_keyword_len,
}

abbrev pub min_interval_minutes : ℕ
min_interval_minutes = 1

abbrev pub max_interval_minutes : ℕ
max_interval_minutes = 7 * 24 * 60

abbrev pub max_webhook_url_len : ℕ
max_webhook_url_len = 2_048

pub record RecurringSearch : Type 0 where
  pub id : Uuid
  pub user_id : Uuid
  pub keyword : Text
  pub mode : JobMode
  pub interval_minutes : ℕ
  pub webhook_url : Option Text
  pub created_at : Time
  pub last_run_at : Option Time

-- `http://` or `https://`, the two prefixes that a saved webhook may have.
unfoldable pub is_web_url : Text → Bool
is_web_url url = starts_with url (codes "https://") || starts_with url (codes "http://")

-- The `match` on the trimmed webhook: a blank one counts as none.
unfoldable pub check_webhook : Option Text → Result JobError (Option Text)
check_webhook none = ok none
check_webhook (some raw) =
    let url = trim raw in
    if is_empty url
    then ok none
    else if ltb max_webhook_url_len (length url)
    then err webhook_url_too_long
    else if is_web_url url
    then ok (some url)
    else err invalid_webhook_url

abbrev pub saved : Uuid → Time → Uuid → Text → JobMode → ℕ → Option Text → RecurringSearch
saved id now user_id keyword mode interval url = record {
  id = id;
  user_id = user_id;
  keyword = keyword;
  mode = mode;
  interval_minutes = interval;
  webhook_url = url;
  created_at = now_utc now;
  last_run_at = none;
}

abbrev pub map_ok : {A B E : Type 0} → (A → B) → Result E A → Result E B
map_ok f (ok a) = ok (f a)
map_ok f (err e) = err e

unfoldable pub new :
    Uuid → Time → Uuid → Text → JobMode → ℕ → Option Text → Result JobError RecurringSearch
unfolding check_webhook
new id now user_id keyword mode interval webhook_url =
    let k = trim keyword in
    if is_empty k
    then err empty_keyword
    else if ltb max_keyword_len (length k)
    then err keyword_too_long
    else if leb min_interval_minutes interval && leb interval max_interval_minutes
    then map_ok (saved id now user_id k mode interval) (check_webhook webhook_url)
    else err invalid_interval

-- `is_due`: never run, or the interval has elapsed since the last run.
unfoldable pub is_due : Time → RecurringSearch → Bool
is_due now s = elim s.last_run_at [
  | none ↦ true
  | some last ↦ leb (last + minutes s.interval_minutes) now
]

unfoldable pub mark_ran : Time → RecurringSearch → RecurringSearch
mark_ran at s = record s { last_run_at = some at }
