-- ===== src/Http/Internal.antt =====
-- The callbacks of the agent's worker, behind the internal token, and the readiness probe.
use ai_agent_boilerplate.Prelude.{Bool, true, false, List}
use ai_agent_boilerplate.Text.{Text, codes}
use ai_agent_boilerplate.Exec.{Exec, Result, ok, err}
use ai_agent_boilerplate.Domain.{Uuid, Time}
use ai_agent_boilerplate.Domain.Job.{AgentStep, JobUsage}
use ai_agent_boilerplate.Domain.SearchResult.{SearchResult}
use ai_agent_boilerplate.Application.IngestResults
use ai_agent_boilerplate.Application.IngestResults.{IngestError, job_not_found}
use ai_agent_boilerplate.Http.Headers.{Headers}
use ai_agent_boilerplate.Http.Views.{
  Response, respond, no_content, error_body, internal_error, plain,
}
use ai_agent_boilerplate.Http.State.{AppState, Handler, answer, with_internal_token}

abbrev pub ingested : Result IngestError Unit → Response
ingested (ok _) = no_content
ingested (err job_not_found) = error_body 404 (codes "job not found")
ingested (err (IngestResults.infrastructure e)) = internal_error

-- The worker's callbacks, each with the body it posts and the clock where the handler reads it.
pub data Callback : Type 0 where
  started : Callback
  results : Time → List SearchResult → Callback
  step : AgentStep → Callback
  question : Text → Callback
  usage : JobUsage → Callback
  failure : Time → Text → Callback

abbrev pub probed : Bool → Response
probed true = respond 200 (plain (codes "ready"))
probed false = respond 503 (plain (codes "not ready"))

module _ {S : Type 0} (state : AppState S) where
  -- `state.ingest`, at the method that the callback's handler calls.
  abbrev pub ingest : Uuid → Callback → Exec IngestError S Unit
  ingest job_id started =
      IngestResults.start state.jobs state.recurring state.digests state.channels state.notifier
        state.library.job_error_text job_id
  ingest job_id (results now list) =
      IngestResults.complete state.jobs state.recurring state.digests state.channels state.notifier
        state.library.job_error_text now job_id list
  ingest job_id (step s) =
      IngestResults.record_step state.jobs state.recurring state.digests state.channels
        state.notifier state.library.job_error_text job_id s
  ingest job_id (question text) =
      IngestResults.request_input state.jobs state.recurring state.digests state.channels
        state.notifier state.library.job_error_text job_id text
  ingest job_id (usage u) =
      IngestResults.record_usage state.jobs state.recurring state.digests state.channels
        state.notifier state.library.job_error_text job_id u
  ingest job_id (failure now error) =
      IngestResults.fail state.jobs state.recurring state.digests state.channels state.notifier
        state.library.job_error_text now job_id error

  -- The six handlers have one body, around that call.
  unfoldable pub internal : Uuid → Headers → Callback → Handler S
  internal job_id headers callback =
      with_internal_token state headers (answer (ingest job_id callback) ingested)

  unfoldable pub readyz : Handler S
  readyz = λ s. (probed (state.readiness s).0, (state.readiness s).1)
