-- ===== src/Postgres/Integrity/Inserts.antt =====
-- Insertions, and the references of the rows that are inserted.
use ai_agent_boilerplate.Prelude.{
  ◌≡◌, refl, true, Option, none, some, List, [], ◌∷◌, ◌++◌, ◌==◌, All, All-append, All-map,
}
use ai_agent_boilerplate.Domain.{Uuid}
use ai_agent_boilerplate.Domain.User.{User}
use ai_agent_boilerplate.Domain.RefreshToken.{RefreshToken}
use ai_agent_boilerplate.Domain.SecurityEvent.{SecurityEvent}
use ai_agent_boilerplate.Postgres.Results.{has_job}
use ai_agent_boilerplate.Postgres.Tables.{
  Tables, JobRow, SearchRow, DocumentRow, ResultRow, StepRow, ChannelRow, ChunkRow,
}
use ai_agent_boilerplate.Postgres.Tables.Laws.{any-append}
use ai_agent_boilerplate.Postgres.Users.{has_user}
use ai_agent_boilerplate.Postgres.Jobs.{has_link}
use ai_agent_boilerplate.Postgres.Audit.{has_actor}
use ai_agent_boilerplate.Postgres.Integrity.{IsIntact, has_document}
use ai_agent_boilerplate.Postgres.Integrity.Replaced.{
  set_tokens-IsIntact, set_results-IsIntact, set_steps-IsIntact, set_events-IsIntact,
  set_channels-IsIntact, set_chunks-IsIntact, set_users-IsIntact, set_jobs-IsIntact,
  set_searches-IsIntact, set_documents-IsIntact,
}

module _ {t : Tables} (v : IsIntact t) where
  module _ (u : User) where
    abbrev plus_user : Tables
    plus_user = record t { users = t.users ++ u ∷ [] }

    -- Whoever refers to a user still does.
    owners :
        {R : Type 0} (owner : R → Uuid) (rows : List R)
        → All (λ r. has_user (owner r) t ≡ true) rows
        → All (λ r. has_user (owner r) plus_user ≡ true) rows
    owners owner rows h =
        All-map _ _ (λ r e. any-append (λ (w : User). w.id == owner r) t.users (u ∷ []) e) rows h

    actor : (o : Option Uuid) → has_actor o t.users ≡ true → has_actor o plus_user.users ≡ true
    actor none h = refl
    actor (some id) h = any-append (λ (w : User). w.id == id) t.users (u ∷ []) h

    pub insert_user-IsIntact : IsIntact plus_user
    insert_user-IsIntact =
        set_users-IsIntact v (t.users ++ u ∷ []) (owners (λ r. r.user_id) t.refresh_tokens v.tokens)
          (owners (λ r. r.user_id) t.research_jobs v.jobs)
          (owners (λ r. r.user_id) t.recurring_searches v.searches)
          (All-map _ _ (λ r e. actor r.user_id e) t.security_events v.events)
          (owners (λ r. r.user_id) t.notification_channels v.channels)
          (owners (λ r. r.user_id) t.documents v.documents)
          (owners (λ r. r.user_id) t.document_chunks v.chunk_users)

  pub insert_job-IsIntact :
      (j : JobRow)
      → has_user j.user_id t ≡ true
      → has_link j.recurring_search_id t.recurring_searches ≡ true
      → IsIntact (record t { research_jobs = t.research_jobs ++ j ∷ [] })
  insert_job-IsIntact j owned linked =
      set_jobs-IsIntact v (t.research_jobs ++ j ∷ [])
        (All-append _ t.research_jobs (j ∷ []) v.jobs (owned, tt))
        (All-append _ t.research_jobs (j ∷ []) v.links (linked, tt))
        (All-map _ _
          (λ r e. any-append (λ (w : JobRow). w.id == r.job_id) t.research_jobs (j ∷ []) e)
          t.search_results v.results)
        (All-map _ _
          (λ r e. any-append (λ (w : JobRow). w.id == r.job_id) t.research_jobs (j ∷ []) e)
          t.agent_steps v.steps)

  module _ (s : SearchRow) where
    abbrev plus_search : Tables
    plus_search = record t { recurring_searches = t.recurring_searches ++ s ∷ [] }

    link :
        (o : Option Uuid)
        → has_link o t.recurring_searches ≡ true
        → has_link o plus_search.recurring_searches ≡ true
    link none h = refl
    link (some id) h = any-append (λ (w : SearchRow). w.id == id) t.recurring_searches (s ∷ []) h

    pub insert_search-IsIntact : has_user s.user_id t ≡ true → IsIntact plus_search
    insert_search-IsIntact owned =
        set_searches-IsIntact v (t.recurring_searches ++ s ∷ [])
          (All-map _ _ (λ r e. link r.recurring_search_id e) t.research_jobs v.links)
          (All-append _ t.recurring_searches (s ∷ []) v.searches (owned, tt))

  pub insert_document-IsIntact :
      (d : DocumentRow)
      → has_user d.user_id t ≡ true
      → IsIntact (record t { documents = t.documents ++ d ∷ [] })
  insert_document-IsIntact d owned =
      set_documents-IsIntact v (t.documents ++ d ∷ [])
        (All-append _ t.documents (d ∷ []) v.documents (owned, tt))
        (All-map _ _
          (λ r e. any-append (λ (w : DocumentRow). w.id == r.document_id) t.documents (d ∷ []) e)
          t.document_chunks v.chunks)

  pub insert_token-IsIntact :
      (r : RefreshToken)
      → has_user r.user_id t ≡ true
      → IsIntact (record t { refresh_tokens = t.refresh_tokens ++ r ∷ [] })
  insert_token-IsIntact r e =
      set_tokens-IsIntact v (t.refresh_tokens ++ r ∷ [])
        (All-append _ t.refresh_tokens (r ∷ []) v.tokens (e, tt))

  pub insert_result-IsIntact :
      (r : ResultRow)
      → has_job r.job_id t ≡ true
      → IsIntact (record t { search_results = t.search_results ++ r ∷ [] })
  insert_result-IsIntact r e =
      set_results-IsIntact v (t.search_results ++ r ∷ [])
        (All-append _ t.search_results (r ∷ []) v.results (e, tt))

  pub insert_step-IsIntact :
      (r : StepRow)
      → has_job r.job_id t ≡ true
      → IsIntact (record t { agent_steps = t.agent_steps ++ r ∷ [] })
  insert_step-IsIntact r e =
      set_steps-IsIntact v (t.agent_steps ++ r ∷ [])
        (All-append _ t.agent_steps (r ∷ []) v.steps (e, tt))

  pub insert_event-IsIntact :
      (r : SecurityEvent)
      → has_actor r.user_id t.users ≡ true
      → IsIntact (record t { security_events = t.security_events ++ r ∷ [] })
  insert_event-IsIntact r e =
      set_events-IsIntact v (t.security_events ++ r ∷ [])
        (All-append _ t.security_events (r ∷ []) v.events (e, tt))

  pub insert_channel-IsIntact :
      (r : ChannelRow)
      → has_user r.user_id t ≡ true
      → IsIntact (record t { notification_channels = t.notification_channels ++ r ∷ [] })
  insert_channel-IsIntact r e =
      set_channels-IsIntact v (t.notification_channels ++ r ∷ [])
        (All-append _ t.notification_channels (r ∷ []) v.channels (e, tt))

  pub insert_chunk-IsIntact :
      (c : ChunkRow)
      → has_document c.document_id t ≡ true
      → has_user c.user_id t ≡ true
      → IsIntact (record t { document_chunks = t.document_chunks ++ c ∷ [] })
  insert_chunk-IsIntact c part owned =
      set_chunks-IsIntact v (t.document_chunks ++ c ∷ [])
        (All-append _ t.document_chunks (c ∷ []) v.chunks (part, tt))
        (All-append _ t.document_chunks (c ∷ []) v.chunk_users (owned, tt))
