-- ===== src/Postgres/Tables.antt =====
-- The tables that backend/migrations creates, each as the list of its rows in the order in which
-- they were inserted, which a query knows nothing of: it meets its rows in an order of the server's
-- (`scan`). A row has the columns that the repositories read or write: not the random keys of results and chunks.
pub mod Laws
use ai_agent_boilerplate.Prelude.{
  ℕ, Bool, false, not, Option, none, some, List, [], ◌∷◌, map, if◌then◌else◌, filter, contains,
}
use ai_agent_boilerplate.Text.{Text}
use ai_agent_boilerplate.Domain.{Uuid, Time}
use ai_agent_boilerplate.Domain.User.{User}
use ai_agent_boilerplate.Domain.RefreshToken.{RefreshToken}
use ai_agent_boilerplate.Domain.SecurityEvent.{SecurityEvent}
use ai_agent_boilerplate.Domain.Job.{AgentStep, JobUsage}

pub record JobRow : Type 0 where
  pub id : Uuid
  pub user_id : Uuid
  pub keyword : Text
  pub mode : Text
  pub status : Text
  pub error : Option Text
  pub question : Option Text
  pub answer : Option Text
  pub recurring_search_id : Option Uuid
  pub usage : JobUsage
  pub created_at : Time
  pub completed_at : Option Time

pub record ResultRow : Type 0 where
  pub job_id : Uuid
  pub title : Text
  pub url : Text
  pub snippet : Text
  pub published_at : Option Time
  pub date_confidence : Text
  pub event_type : Text
  pub summary : Option Text
  pub is_new : Bool
  pub raw : Text

pub record StepRow : Type 0 where
  pub job_id : Uuid
  pub step : AgentStep

-- `interval_minutes`, an `INTEGER`, is its bit pattern.
pub record SearchRow : Type 0 where
  pub id : Uuid
  pub user_id : Uuid
  pub keyword : Text
  pub mode : Text
  pub interval_minutes : ℕ
  pub webhook_url : Option Text
  pub created_at : Time
  pub last_run_at : Option Time

pub record ChannelRow : Type 0 where
  pub id : Uuid
  pub user_id : Uuid
  pub kind : Text
  pub target : Text
  pub secret : Option Text
  pub created_at : Time

pub record DocumentRow : Type 0 where
  pub id : Uuid
  pub user_id : Uuid
  pub name : Text
  pub status : Text
  pub error : Option Text
  pub created_at : Time

pub record ChunkRow : Type 0 where
  pub document_id : Uuid
  pub user_id : Uuid
  pub seq : ℕ
  pub content : Text
  pub embedding : List ℕ

-- The tables whose columns are the fields of a domain record hold such records.
pub record Tables : Type 0 where
  pub users : List User
  pub refresh_tokens : List RefreshToken
  pub research_jobs : List JobRow
  pub search_results : List ResultRow
  pub agent_steps : List StepRow
  pub recurring_searches : List SearchRow
  pub security_events : List SecurityEvent
  pub notification_channels : List ChannelRow
  pub documents : List DocumentRow
  pub document_chunks : List ChunkRow

module _ {R : Type 0} where
  -- `DELETE FROM … WHERE p`
  unfoldable pub delete_where : (R → Bool) → List R → List R
  delete_where p rows = filter (λ r. not (p r)) rows

  -- `UPDATE … SET … WHERE p`
  unfoldable pub update_where : (R → Bool) → (R → R) → List R → List R
  update_where p f rows = map (λ r. if p r then f r else r) rows

  -- `fetch_optional`: the first row, if there is one.
  abbrev pub first_row : List R → Option R
  first_row [] = none
  first_row (r ∷ rows) = some r

abbrev pub map_first : {R A : Type 0} → (R → A) → Option R → Option A
map_first f none = none
map_first f (some r) = some (f r)

-- `REFERENCES research_jobs ON DELETE CASCADE`, of results and of journal entries.
unfoldable pub drop_jobs : (JobRow → Bool) → Tables → Tables
drop_jobs p t =
    let doomed = map (λ j. j.id) (filter p t.research_jobs) in
    record t {
      research_jobs = delete_where p t.research_jobs;
      search_results = delete_where (λ r. contains r.job_id doomed) t.search_results;
      agent_steps = delete_where (λ r. contains r.job_id doomed) t.agent_steps;
    }

abbrev pub is_linked_to : List Uuid → Option Uuid → Bool
is_linked_to ids none = false
is_linked_to ids (some id) = contains id ids

-- `REFERENCES recurring_searches ON DELETE SET NULL`: the runs of a deleted search stay.
unfoldable pub drop_searches : (SearchRow → Bool) → Tables → Tables
drop_searches p t =
    let doomed = map (λ s. s.id) (filter p t.recurring_searches) in
    record t {
      recurring_searches = delete_where p t.recurring_searches;
      research_jobs =
          update_where (λ (j : JobRow). is_linked_to doomed j.recurring_search_id)
            (λ j. record j { recurring_search_id = none }) t.research_jobs;
    }

-- `REFERENCES documents ON DELETE CASCADE`, of chunks.
unfoldable pub drop_documents : (DocumentRow → Bool) → Tables → Tables
drop_documents p t =
    let doomed = map (λ d. d.id) (filter p t.documents) in
    record t {
      documents = delete_where p t.documents;
      document_chunks = delete_where (λ c. contains c.document_id doomed) t.document_chunks;
    }
