-- ===== src/Application/IngestResults.antt =====
-- backend/src/application/ingest_results.rs: what the agent's worker reports about a job.
pub mod Callbacks
pub mod Digests
use ai_agent_boilerplate.Prelude.{Option, none, some, List, [], ◌∷◌, map, length, filter}
use ai_agent_boilerplate.Text.{Text}
use ai_agent_boilerplate.Exec.{
  ◌>>=◌, ◌>>◌, Exec, Result, ok, err, pure, from_result, map_err, attempt, ok_or,
}
use ai_agent_boilerplate.Domain.{Uuid, Time}
use ai_agent_boilerplate.Domain.Job
use ai_agent_boilerplate.Domain.Job.{JobError, ResearchJob, AgentStep, JobUsage}
use ai_agent_boilerplate.Domain.Recurring.{RecurringSearch}
use ai_agent_boilerplate.Domain.SearchResult.{SearchResult}
use ai_agent_boilerplate.Domain.Channel.{NotificationChannel}
use ai_agent_boilerplate.Ports.{
  PortError, port_error, JobRepository, RecurringSearchRepository, DigestSender,
  NotificationChannelRepository, ChannelNotifier, Digest, DigestEntry,
}

pub data IngestError : Type 0 where
  job_not_found : IngestError
  infrastructure : PortError → IngestError

-- `r.is_new`
abbrev pub new_results : List SearchResult → List SearchResult
new_results = filter (λ r. r.is_new)

abbrev pub entry_of : SearchResult → DigestEntry
entry_of r = record { title = r.title; url = r.url; published_at = r.published_at }

unfoldable pub digest_of : Uuid → ResearchJob → List SearchResult → Digest
digest_of rs_id job results = record {
  recurring_search_id = rs_id;
  job_id = job.id;
  keyword = job.keyword;
  new_count = length results;
  new_results = map entry_of results;
}

module _ {S : Type 0} (jobs : JobRepository S) (recurring : RecurringSearchRepository S)
    (digests : DigestSender S) (channels : NotificationChannelRepository S)
    (notifier : ChannelNotifier S) (job_error_text : JobError → Text) where
  -- Every channel is tried, whatever became of the others.
  unfoldable pub notify_all : Digest → List NotificationChannel → Exec IngestError S Unit
  notify_all digest [] s = (ok tt, s)
  notify_all digest (channel ∷ rest) s = notify_all digest rest (notifier.notify channel digest s).1

  abbrev pub send_webhook : Digest → Option Text → Exec IngestError S Unit
  send_webhook digest none = pure tt
  send_webhook digest (some url) = do attempt (digests.send url digest); pure tt

  abbrev pub notify_listed :
      Digest → Result PortError (List NotificationChannel) → Exec IngestError S Unit
  notify_listed digest (ok list) = notify_all digest list
  notify_listed digest (err e) = pure tt

  abbrev pub deliver : Digest → Result PortError (Option RecurringSearch) → Exec IngestError S Unit
  deliver digest (ok (some r)) = do
    send_webhook digest r.webhook_url
    listed ← attempt (channels.list_for_user r.user_id)
    notify_listed digest listed
  deliver digest (ok none) = pure tt
  deliver digest (err e) = pure tt

  abbrev pub digest_fresh : Uuid → ResearchJob → List SearchResult → Exec IngestError S Unit
  digest_fresh rs_id job [] = pure tt
  digest_fresh rs_id job (r ∷ rs) = do
    found ← attempt (recurring.find rs_id)
    deliver (digest_of rs_id job (r ∷ rs)) found

  abbrev pub digest_run : Option Uuid → ResearchJob → List SearchResult → Exec IngestError S Unit
  digest_run none job results = pure tt
  digest_run (some rs_id) job results = digest_fresh rs_id job (new_results results)

  -- Best effort: no branch returns an error.
  unfoldable pub maybe_send_digest : ResearchJob → List SearchResult → Exec IngestError S Unit
  unfolding notify_all digest_of
  maybe_send_digest job results = digest_run job.recurring_search_id job results

  abbrev pub find_job : Uuid → Exec IngestError S ResearchJob
  find_job job_id = do found ← map_err infrastructure (jobs.find job_id); ok_or job_not_found found

  unfoldable pub start : Uuid → Exec IngestError S Unit
  start job_id = do job ← find_job job_id; map_err infrastructure (jobs.update (Job.start job))

  unfoldable pub complete : Time → Uuid → List SearchResult → Exec IngestError S Unit
  complete now job_id results = do
    job ← find_job job_id
    map_err infrastructure (jobs.store_results job_id results)
    map_err infrastructure (jobs.update (Job.complete now job))
    maybe_send_digest (Job.complete now job) results

  unfoldable pub record_step : Uuid → AgentStep → Exec IngestError S Unit
  record_step job_id step = do
    find_job job_id
    map_err infrastructure (jobs.append_step job_id step)

  -- `job.request_input(question).map_err(..)?`; `e.to_string()` of a `JobError`, derived by the
  -- `thiserror` crate, is `job_error_text`.
  abbrev pub asked : Result JobError Unit → ResearchJob → Result IngestError ResearchJob
  asked (ok _) job = ok job
  asked (err e) job = err (infrastructure (port_error (job_error_text e)))

  unfoldable pub request_input : Uuid → Text → Exec IngestError S Unit
  request_input job_id question = do
    job ← find_job job_id
    paused ←
        from_result (asked (Job.request_input question job).0 (Job.request_input question job).1)
    map_err infrastructure (jobs.update paused)

  unfoldable pub record_usage : Uuid → JobUsage → Exec IngestError S Unit
  record_usage job_id usage = do
    find_job job_id
    map_err infrastructure (jobs.add_usage job_id usage)

  unfoldable pub fail : Time → Uuid → Text → Exec IngestError S Unit
  fail now job_id error = do
    job ← find_job job_id
    map_err infrastructure (jobs.update (Job.fail error now job))
