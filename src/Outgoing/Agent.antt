-- ===== src/Outgoing/Agent.antt =====
-- dispatch/mod.rs: the tasks sent to the agent's API.
use ai_agent_boilerplate.Prelude.{ℕ, none, List, [], ◌∷◌, ◌++◌, if◌then◌else◌, is_some}
use ai_agent_boilerplate.Text.{Text, codes}
use ai_agent_boilerplate.Exec.{◌>>=◌, pure, raise, map_err}
use ai_agent_boilerplate.Domain.{Uuid}
use ai_agent_boilerplate.Domain.Job.{ResearchJob}
use ai_agent_boilerplate.Ports.{Port, JobDispatcher, EmbedDispatcher}
use ai_agent_boilerplate.Outgoing.{HttpRequest, Payload, TaskRequest, task, embed, is_success}
use ai_agent_boilerplate.Outgoing.Webhook.{Library, prefixed}
use ai_agent_boilerplate.Outgoing.Channels.{trim_end_matches}

abbrev pub task_request : ResearchJob → List Text → TaskRequest
task_request job seen_urls = record {
  job_id = job.id;
  keyword = job.keyword;
  clarification = job.answer;
  mode = job.mode;
  recurring = is_some job.recurring_search_id;
  seen_urls = seen_urls;
}

-- `uuid_text` is the text of a `Uuid`; the headers of the trace, which telemetry adds, are left out.
module _ {S : Type 0} (library : Library S) (uuid_text : Uuid → Text)
    (base_url internal_token : Text) where
  abbrev pub request : Text → Uuid → Payload → HttpRequest
  request path id body = record {
    url = trim_end_matches b'/' base_url ++ path;
    headers =
        (codes "X-Internal-Token", internal_token) ∷ (codes "X-Request-Id", uuid_text id) ∷ [];
    body = body;
  }

  abbrev pub succeeded : ℕ → Port S Unit
  succeeded status =
      if is_success status
      then pure tt
      else raise (prefixed (codes "agent API returned ") (library.status_text status))

  abbrev pub sent : HttpRequest → Port S Unit
  sent r = do
    status ← map_err (prefixed (codes "agent API unreachable: ")) (library.post none r)
    succeeded status

  -- `HttpJobDispatcher`
  unfoldable pub dispatch : ResearchJob → List Text → Port S Unit
  unfolding trim_end_matches
  dispatch job seen_urls =
      sent (request (codes "/tasks") job.id (task (task_request job seen_urls)))

  -- `HttpEmbedDispatcher`
  unfoldable pub dispatch_embed : Uuid → Text → Text → Port S Unit
  unfolding trim_end_matches
  dispatch_embed document_id name content = sent (
      request (codes "/embed") document_id
        (embed (record { document_id = document_id; name = name; content = content })))

abbrev pub noop_job_dispatcher : {S : Type 0} → JobDispatcher S
noop_job_dispatcher = record { dispatch = λ job seen_urls. pure tt }

abbrev pub noop_embed_dispatcher : {S : Type 0} → EmbedDispatcher S
noop_embed_dispatcher = record { dispatch_embed = λ id name content. pure tt }
