-- ===== src/Application/IngestResults/Digests.antt =====
-- Digests (ADR-036, ADR-061) are best effort: no failure of a sender reaches the ingestion.
use ai_agent_boilerplate.Prelude.{ℕ, ◌≡◌, refl, Option, none, some, List, [], ◌∷◌}
use ai_agent_boilerplate.Text.{Text}
use ai_agent_boilerplate.Exec.{Result, ok}
use ai_agent_boilerplate.Map.{get}
use ai_agent_boilerplate.Domain.{Uuid}
use ai_agent_boilerplate.Domain.Job.{JobError, ResearchJob}
use ai_agent_boilerplate.Domain.SearchResult.{SearchResult}
use ai_agent_boilerplate.Domain.Channel.{NotificationChannel}
use ai_agent_boilerplate.Domain.Recurring.{RecurringSearch}
use ai_agent_boilerplate.Ports.{Port, Digest}
use ai_agent_boilerplate.InMemory.Searches
use ai_agent_boilerplate.InMemory.Channels
use ai_agent_boilerplate.InMemory.World.{
  World, job_repository, search_repository, channel_repository, digest_sender, channel_notifier,
}
use ai_agent_boilerplate.Application.IngestResults.{
  IngestError, notify_all, maybe_send_digest, deliver, digest_fresh, digest_run, digest_of,
  new_results,
}

-- Everything but the outside is as it was.
abbrev pub SameInside : {X : Type 0} → World X → World X → Type 0
SameInside v w = v ≡ record w { outside = v.outside }

module _ {X : Type 0} (add_f64 : ℕ → ℕ → ℕ) (send : Text → Digest → Port X Unit)
    (notify : NotificationChannel → Digest → Port X Unit) (job_error_text : JobError → Text) where
  abbrev pub digest_step :
      ResearchJob → List SearchResult → World X → Result IngestError Unit × World X
  digest_step =
      maybe_send_digest (job_repository add_f64) search_repository (digest_sender send)
        channel_repository (channel_notifier notify) job_error_text

  notify_all_inside :
      (digest : Digest) (channels : List NotificationChannel) (w : World X)
      → let r =
          notify_all
            (job_repository add_f64)
            search_repository
            (digest_sender send)
            channel_repository
            (channel_notifier notify)
            job_error_text
            digest
            channels
            w in
        (r.0 ≡ ok tt) × SameInside r.1 w
  unfolding notify_all
  notify_all_inside digest [] w = (refl, refl)
  notify_all_inside digest (c ∷ cs) w =
      notify_all_inside digest cs (record w { outside = (notify c digest w.outside).1 })

  deliver_inside :
      (digest : Digest) (found : Option RecurringSearch) (w : World X)
      → let r =
          deliver
            (job_repository add_f64)
            search_repository
            (digest_sender send)
            channel_repository
            (channel_notifier notify)
            job_error_text
            digest
            (ok found)
            w in
        (r.0 ≡ ok tt) × SameInside r.1 w
  unfolding Channels.list_for_user
  deliver_inside digest none w = (refl, refl)
  deliver_inside digest (some r) w = webhook r.webhook_url
    where
      webhook :
          (url : Option Text)
          → let t =
              deliver
                (job_repository add_f64)
                search_repository
                (digest_sender send)
                channel_repository
                (channel_notifier notify)
                job_error_text
                digest
                (ok (some (record r { webhook_url = url })))
                w in
            (t.0 ≡ ok tt) × SameInside t.1 w
      webhook none = notify_all_inside digest _ w
      webhook (some url) =
          notify_all_inside digest _ (record w { outside = (send url digest w.outside).1 })

  fresh_inside :
      (rs_id : Uuid) (job : ResearchJob) (results : List SearchResult) (w : World X)
      → let r =
          digest_fresh
            (job_repository add_f64)
            search_repository
            (digest_sender send)
            channel_repository
            (channel_notifier notify)
            job_error_text
            rs_id
            job
            results
            w in
        (r.0 ≡ ok tt) × SameInside r.1 w
  unfolding Searches.find
  fresh_inside rs_id job [] w = (refl, refl)
  fresh_inside rs_id job (r ∷ rs) w =
      deliver_inside (digest_of rs_id job (r ∷ rs)) (get rs_id w.searches) w

  -- The digest step always succeeds and changes no repository.
  pub digest_inside :
      (job : ResearchJob) (results : List SearchResult) (w : World X)
      → ((digest_step job results w).0 ≡ ok tt) × SameInside (digest_step job results w).1 w
  unfolding maybe_send_digest
  digest_inside job results w = run job.recurring_search_id
    where
      run :
          (o : Option Uuid)
          → let r =
              digest_run
                (job_repository add_f64)
                search_repository
                (digest_sender send)
                channel_repository
                (channel_notifier notify)
                job_error_text
                o
                job
                results
                w in
            (r.0 ≡ ok tt) × SameInside r.1 w
      run none = (refl, refl)
      run (some rs_id) = fresh_inside rs_id job (new_results results) w
