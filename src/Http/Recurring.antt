-- ===== src/Http/Recurring.antt =====
-- The handlers of saved searches.
use ai_agent_boilerplate.Prelude.{ℕ, Option, List, ◌++◌, map}
use ai_agent_boilerplate.Text.{Text, codes}
use ai_agent_boilerplate.Text.Decimal.{decimal}
use ai_agent_boilerplate.Exec.{Result, ok, err}
use ai_agent_boilerplate.Domain.{Uuid, Time}
use ai_agent_boilerplate.Domain.Job.{JobMode}
use ai_agent_boilerplate.Domain.Recurring.{RecurringSearch}
use ai_agent_boilerplate.Application.RecurringSearches
use ai_agent_boilerplate.Application.RecurringSearches.{
  RecurringError, invalid, not_found, too_many,
}
use ai_agent_boilerplate.Http.Headers.{Headers}
use ai_agent_boilerplate.Http.Views.{
  Response, respond, no_content, error_body, internal_error, search, searches, recurring_view,
}
use ai_agent_boilerplate.Http.State.{AppState, Handler, answer, with_user}

pub record CreateRecurringRequest : Type 0 where
  pub keyword : Text
  pub mode : JobMode
  pub interval_minutes : ℕ
  pub webhook_url : Option Text

abbrev pub listed_recurring : Result RecurringError (List RecurringSearch) → Response
listed_recurring (ok list) = respond 200 (searches (map recurring_view list))
listed_recurring (err e) = internal_error

abbrev pub deleted_recurring : Result RecurringError Unit → Response
deleted_recurring (ok _) = no_content
deleted_recurring (err not_found) = error_body 404 (codes "recurring search not found")
deleted_recurring (err (invalid e)) = internal_error
deleted_recurring (err (too_many n)) = internal_error
deleted_recurring (err (RecurringSearches.infrastructure e)) = internal_error

module _ {S : Type 0} (state : AppState S) where
  abbrev pub created : Result RecurringError RecurringSearch → Response
  created (ok r) = respond 201 (search (recurring_view r))
  created (err (invalid e)) = error_body 422 (state.library.job_error_text e)
  created (err (too_many n)) =
      error_body 429 (codes "too many recurring searches (" ++ decimal n ++ codes " max)")
  created (err not_found) = error_body 404 (codes "not found")
  created (err (RecurringSearches.infrastructure e)) = internal_error

  unfoldable pub create_recurring : Uuid → Time → Headers → CreateRecurringRequest → Handler S
  create_recurring id now headers body = with_user state headers λ user_id.
      answer
        (RecurringSearches.create state.recurring id now user_id body.keyword body.mode
          body.interval_minutes body.webhook_url)
        created

  unfoldable pub list_recurring : Headers → Handler S
  list_recurring headers =
      with_user state headers
        λ user_id. answer (RecurringSearches.list state.recurring user_id) listed_recurring

  unfoldable pub delete_recurring : Headers → Uuid → Handler S
  delete_recurring headers id =
      with_user state headers
        λ user_id. answer (RecurringSearches.delete state.recurring user_id id) deleted_recurring
