-- ===== src/Http/Searches.antt =====
-- The handlers of searches: launch, list, detail, answer, and the guard of the event stream.
use ai_agent_boilerplate.Prelude.{Option, none, some, List, ◌++◌, map}
use ai_agent_boilerplate.Text.{Text, codes}
use ai_agent_boilerplate.Text.Decimal.{decimal}
use ai_agent_boilerplate.Exec.{Result, ok, err}
use ai_agent_boilerplate.Domain.{Uuid, Time}
use ai_agent_boilerplate.Domain.Job.{ResearchJob, JobMode, JobError, not_awaiting_input}
use ai_agent_boilerplate.Domain.SecurityEvent
use ai_agent_boilerplate.Domain.SecurityEvent.{quota_exceeded}
use ai_agent_boilerplate.Ports.{PortError}
use ai_agent_boilerplate.Application.{Draw}
use ai_agent_boilerplate.Application.LaunchSearch
use ai_agent_boilerplate.Application.LaunchSearch.{LaunchError, invalid_job}
use ai_agent_boilerplate.Application.AnswerClarification
use ai_agent_boilerplate.Application.AnswerClarification.{AnswerError, not_found, invalid_answer}
use ai_agent_boilerplate.Application.Queries
use ai_agent_boilerplate.Application.Queries.{Detail}
use ai_agent_boilerplate.Http.Headers.{Headers, client_ip}
use ai_agent_boilerplate.Http.Views.{
  Response, respond, no_content, event_stream, error_body, internal_error, job_created, jobs,
  job_view, job_detail_view, job_detail,
}
use ai_agent_boilerplate.Http.State.{
  AppState, Handler, EventDraw, finish, handle, answer, record_security_event, with_user,
}

pub record CreateSearchRequest : Type 0 where
  pub keyword : Text
  pub mode : JobMode

abbrev pub listed_searches : Result PortError (List ResearchJob) → Response
listed_searches (ok list) = respond 200 (jobs (map job_view list))
listed_searches (err e) = internal_error

abbrev pub detailed : Result PortError (Option Detail) → Response
detailed (ok (some (job, results, steps))) =
    respond 200 (job_detail_view (job_detail job results steps))
detailed (ok none) = error_body 404 (codes "search not found")
detailed (err e) = internal_error

-- The guard of the event stream: an unknown or foreign job is refused before streaming.
abbrev pub opened : Result PortError (Option Detail) → Response
opened (ok (some d)) = respond 200 event_stream
opened (ok none) = error_body 404 (codes "search not found")
opened (err e) = internal_error

module _ {S : Type 0} (state : AppState S) where
  abbrev pub launched : EventDraw → Headers → Uuid → Result LaunchError ResearchJob → Handler S
  launched event headers user_id (ok job) = finish (respond 202 (job_created job.id))
  launched event headers user_id (err (invalid_job e)) =
      finish (error_body 422 (state.library.job_error_text e))
  launched event headers user_id (err (LaunchSearch.quota_exceeded n)) =
      record_security_event state
        (SecurityEvent.new event.id event.at quota_exceeded (some user_id)
          (client_ip state.library.to_str headers) (codes "daily search quota"))
        (error_body 429
          (codes "daily search quota reached (" ++ decimal n ++ codes " searches per 24h)"))
  launched event headers user_id (err LaunchSearch.dispatch_failed) =
      finish (error_body 502 (codes "failed to reach the agent"))
  launched event headers user_id (err (LaunchSearch.infrastructure e)) = finish internal_error

  unfoldable pub create_search : EventDraw → Time → Draw → Headers → CreateSearchRequest → Handler S
  create_search event clock draw headers body = with_user state headers λ user_id.
      handle
        (LaunchSearch.execute state.jobs state.dispatcher state.daily_search_quota clock draw
          user_id body.keyword body.mode)
        (launched event headers user_id)

  unfoldable pub list_searches : Headers → Handler S
  list_searches headers =
      with_user state headers λ user_id. answer (Queries.list state.jobs user_id) listed_searches

  unfoldable pub get_search : Headers → Uuid → Handler S
  get_search headers job_id =
      with_user state headers λ user_id. answer (Queries.get state.jobs user_id job_id) detailed

  unfoldable pub search_events : Headers → Uuid → Handler S
  search_events headers job_id =
      with_user state headers λ user_id. answer (Queries.get state.jobs user_id job_id) opened

  abbrev pub invalid_answer_response : JobError → Response
  invalid_answer_response not_awaiting_input =
      error_body 409 (codes "search is not awaiting an answer")
  invalid_answer_response e = error_body 422 (state.library.job_error_text e)

  abbrev pub answered : Result AnswerError ResearchJob → Response
  answered (ok job) = no_content
  answered (err not_found) = error_body 404 (codes "search not found")
  answered (err (invalid_answer e)) = invalid_answer_response e
  answered (err AnswerClarification.dispatch_failed) =
      error_body 502 (codes "failed to reach the agent")
  answered (err (AnswerClarification.infrastructure e)) = internal_error

  -- `now` is when a failed dispatch is recorded.
  unfoldable pub answer_search : Time → Headers → Uuid → Text → Handler S
  answer_search now headers job_id text = with_user state headers λ user_id.
      answer (AnswerClarification.execute state.jobs state.dispatcher now user_id job_id text)
        answered
