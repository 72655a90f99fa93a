-- ===== src/Postgres/Integrity/Replaced.antt =====
-- One table replaced: what must hold of it and of the rows that refer to it.
use ai_agent_boilerplate.Prelude.{◌≡◌, true, List, All}
use ai_agent_boilerplate.Domain.User.{User}
use ai_agent_boilerplate.Domain.RefreshToken.{RefreshToken}
use ai_agent_boilerplate.Domain.SecurityEvent.{SecurityEvent}
use ai_agent_boilerplate.Postgres.Tables.{
  Tables, JobRow, ResultRow, StepRow, SearchRow, ChannelRow, DocumentRow, ChunkRow,
}
use ai_agent_boilerplate.Postgres.Users.{has_user}
use ai_agent_boilerplate.Postgres.Jobs.{has_link}
use ai_agent_boilerplate.Postgres.Results.{has_job}
use ai_agent_boilerplate.Postgres.Audit.{has_actor}
use ai_agent_boilerplate.Postgres.Integrity.{IsIntact, has_document}

module _ {t : Tables} (v : IsIntact t) where
  pub set_users-IsIntact :
      (rows : List User)
      → All
          (λ (r : RefreshToken). has_user r.user_id (record t { users = rows }) ≡ true)
          t.refresh_tokens
      → All (λ (r : JobRow). has_user r.user_id (record t { users = rows }) ≡ true) t.research_jobs
      → All
          (λ (r : SearchRow). has_user r.user_id (record t { users = rows }) ≡ true)
          t.recurring_searches
      → All (λ (r : SecurityEvent). has_actor r.user_id rows ≡ true) t.security_events
      → All
          (λ (r : ChannelRow). has_user r.user_id (record t { users = rows }) ≡ true)
          t.notification_channels
      → All (λ (r : DocumentRow). has_user r.user_id (record t { users = rows }) ≡ true) t.documents
      → All
          (λ (r : ChunkRow). has_user r.user_id (record t { users = rows }) ≡ true)
          t.document_chunks
      → IsIntact (record t { users = rows })
  set_users-IsIntact rows new_tokens new_jobs new_searches new_events new_channels new_documents
        new_chunk_users =
      record {
        tokens = new_tokens;
        jobs = new_jobs;
        links = v.links;
        results = v.results;
        steps = v.steps;
        searches = new_searches;
        events = new_events;
        channels = new_channels;
        documents = new_documents;
        chunks = v.chunks;
        chunk_users = new_chunk_users;
      }

  pub set_tokens-IsIntact :
      (rows : List RefreshToken)
      → All (λ (r : RefreshToken). has_user r.user_id t ≡ true) rows
      → IsIntact (record t { refresh_tokens = rows })
  set_tokens-IsIntact rows new_tokens = record {
    tokens = new_tokens;
    jobs = v.jobs;
    links = v.links;
    results = v.results;
    steps = v.steps;
    searches = v.searches;
    events = v.events;
    channels = v.channels;
    documents = v.documents;
    chunks = v.chunks;
    chunk_users = v.chunk_users;
  }

  pub set_jobs-IsIntact :
      (rows : List JobRow)
      → All (λ (r : JobRow). has_user r.user_id t ≡ true) rows
      → All (λ (r : JobRow). has_link r.recurring_search_id t.recurring_searches ≡ true) rows
      → All
          (λ (r : ResultRow). has_job r.job_id (record t { research_jobs = rows }) ≡ true)
          t.search_results
      → All
          (λ (r : StepRow). has_job r.job_id (record t { research_jobs = rows }) ≡ true)
          t.agent_steps
      → IsIntact (record t { research_jobs = rows })
  set_jobs-IsIntact rows new_jobs new_links new_results new_steps = record {
    tokens = v.tokens;
    jobs = new_jobs;
    links = new_links;
    results = new_results;
    steps = new_steps;
    searches = v.searches;
    events = v.events;
    channels = v.channels;
    documents = v.documents;
    chunks = v.chunks;
    chunk_users = v.chunk_users;
  }

  pub set_results-IsIntact :
      (rows : List ResultRow)
      → All (λ (r : ResultRow). has_job r.job_id t ≡ true) rows
      → IsIntact (record t { search_results = rows })
  set_results-IsIntact rows new_results = record {
    tokens = v.tokens;
    jobs = v.jobs;
    links = v.links;
    results = new_results;
    steps = v.steps;
    searches = v.searches;
    events = v.events;
    channels = v.channels;
    documents = v.documents;
    chunks = v.chunks;
    chunk_users = v.chunk_users;
  }

  pub set_steps-IsIntact :
      (rows : List StepRow)
      → All (λ (r : StepRow). has_job r.job_id t ≡ true) rows
      → IsIntact (record t { agent_steps = rows })
  set_steps-IsIntact rows new_steps = record {
    tokens = v.tokens;
    jobs = v.jobs;
    links = v.links;
    results = v.results;
    steps = new_steps;
    searches = v.searches;
    events = v.events;
    channels = v.channels;
    documents = v.documents;
    chunks = v.chunks;
    chunk_users = v.chunk_users;
  }

  pub set_searches-IsIntact :
      (rows : List SearchRow)
      → All (λ (r : JobRow). has_link r.recurring_search_id rows ≡ true) t.research_jobs
      → All (λ (r : SearchRow). has_user r.user_id t ≡ true) rows
      → IsIntact (record t { recurring_searches = rows })
  set_searches-IsIntact rows new_links new_searches = record {
    tokens = v.tokens;
    jobs = v.jobs;
    links = new_links;
    results = v.results;
    steps = v.steps;
    searches = new_searches;
    events = v.events;
    channels = v.channels;
    documents = v.documents;
    chunks = v.chunks;
    chunk_users = v.chunk_users;
  }

  pub set_events-IsIntact :
      (rows : List SecurityEvent)
      → All (λ (r : SecurityEvent). has_actor r.user_id t.users ≡ true) rows
      → IsIntact (record t { security_events = rows })
  set_events-IsIntact rows new_events = record {
    tokens = v.tokens;
    jobs = v.jobs;
    links = v.links;
    results = v.results;
    steps = v.steps;
    searches = v.searches;
    events = new_events;
    channels = v.channels;
    documents = v.documents;
    chunks = v.chunks;
    chunk_users = v.chunk_users;
  }

  pub set_channels-IsIntact :
      (rows : List ChannelRow)
      → All (λ (r : ChannelRow). has_user r.user_id t ≡ true) rows
      → IsIntact (record t { notification_channels = rows })
  set_channels-IsIntact rows new_channels = record {
    tokens = v.tokens;
    jobs = v.jobs;
    links = v.links;
    results = v.results;
    steps = v.steps;
    searches = v.searches;
    events = v.events;
    channels = new_channels;
    documents = v.documents;
    chunks = v.chunks;
    chunk_users = v.chunk_users;
  }

  pub set_documents-IsIntact :
      (rows : List DocumentRow)
      → All (λ (r : DocumentRow). has_user r.user_id t ≡ true) rows
      → All
          (λ (r : ChunkRow). has_document r.document_id (record t { documents = rows }) ≡ true)
          t.document_chunks
      → IsIntact (record t { documents = rows })
  set_documents-IsIntact rows new_documents new_chunks = record {
    tokens = v.tokens;
    jobs = v.jobs;
    links = v.links;
    results = v.results;
    steps = v.steps;
    searches = v.searches;
    events = v.events;
    channels = v.channels;
    documents = new_documents;
    chunks = new_chunks;
    chunk_users = v.chunk_users;
  }

  pub set_chunks-IsIntact :
      (rows : List ChunkRow)
      → All (λ (r : ChunkRow). has_document r.document_id t ≡ true) rows
      → All (λ (r : ChunkRow). has_user r.user_id t ≡ true) rows
      → IsIntact (record t { document_chunks = rows })
  set_chunks-IsIntact rows new_chunks new_chunk_users = record {
    tokens = v.tokens;
    jobs = v.jobs;
    links = v.links;
    results = v.results;
    steps = v.steps;
    searches = v.searches;
    events = v.events;
    channels = v.channels;
    documents = v.documents;
    chunks = new_chunks;
    chunk_users = new_chunk_users;
  }
