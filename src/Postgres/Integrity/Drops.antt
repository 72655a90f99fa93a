-- ===== src/Postgres/Integrity/Drops.antt =====
-- Deletions, and the rows that refer to what is deleted: `ON DELETE CASCADE` and `SET NULL`.
use ai_agent_boilerplate.Prelude.{
  ℕ, ◌≡◌, refl, ◌∙◌, inl, inr, Bool, true, false, Option, none, some, List, [], ◌∷◌, map, arith,
  ◌==◌, Bool-cases, filter, any, All, contains, All-map,
}
use ai_agent_boilerplate.Domain.{Uuid}
use ai_agent_boilerplate.Domain.User.{User}
use ai_agent_boilerplate.Domain.SecurityEvent.{SecurityEvent}
use ai_agent_boilerplate.Postgres.Tables.{
  Tables, JobRow, SearchRow, DocumentRow, delete_where, update_where, drop_jobs, drop_searches,
  drop_documents, is_linked_to,
}
use ai_agent_boilerplate.Postgres.Tables.Laws.{
  delete_where-All, All-delete_where, All-update_where, any-delete_where, any-spared,
  any-update_where,
}
use ai_agent_boilerplate.Postgres.Users.{has_user, drop_user, drop_rows_of, is_event_of}
use ai_agent_boilerplate.Postgres.Jobs.{has_link}
use ai_agent_boilerplate.Postgres.Results.{has_job}
use ai_agent_boilerplate.Postgres.Audit.{has_actor}
use ai_agent_boilerplate.Postgres.Integrity.{IsIntact}

-- Both of two facts about every element.
All-both :
    {A : Type 0} (P Q R : A → Type 0) (xs : List A)
    → ((x : A) → P x → Q x → R x)
    → All P xs
    → All Q xs
    → All R xs
All-both P Q R [] f h k = tt
All-both P Q R (x ∷ xs) f h k = (f x h.0 k.0, All-both P Q R xs f h.1 k.1)

module _ {t : Tables} (v : IsIntact t) where
  -- The references of rows that are left after those to doomed rows are deleted.
  left :
      {R K : Type 0} (ref : R → Uuid) (key : K → ℕ) (p : K → Bool) (rows : List R) (keys : List K)
      → All (λ r. any (λ k. key k == ref r) keys ≡ true) rows
      → All
          (λ r. any (λ k. key k == ref r) (delete_where p keys) ≡ true)
          (delete_where (λ r. contains (ref r) (map key (filter p keys))) rows)
  left ref key p rows keys h =
      All-both _ _ _ _ (λ r e f. any-spared key p (ref r) keys e f) (All-delete_where _ _ rows h)
        (delete_where-All (λ r. contains (ref r) (map key (filter p keys))) rows)

  pub drop_jobs-IsIntact : (p : JobRow → Bool) → IsIntact (drop_jobs p t)
  unfolding drop_jobs
  drop_jobs-IsIntact p = record {
    tokens = v.tokens;
    jobs = All-delete_where p _ t.research_jobs v.jobs;
    links = All-delete_where p _ t.research_jobs v.links;
    results = left (λ r. r.job_id) (λ j. j.id) p t.search_results t.research_jobs v.results;
    steps = left (λ r. r.job_id) (λ j. j.id) p t.agent_steps t.research_jobs v.steps;
    searches = v.searches;
    events = v.events;
    channels = v.channels;
    documents = v.documents;
    chunks = v.chunks;
    chunk_users = v.chunk_users;
  }

  pub drop_documents-IsIntact : (p : DocumentRow → Bool) → IsIntact (drop_documents p t)
  unfolding drop_documents
  drop_documents-IsIntact p = record {
    tokens = v.tokens;
    jobs = v.jobs;
    links = v.links;
    results = v.results;
    steps = v.steps;
    searches = v.searches;
    events = v.events;
    channels = v.channels;
    documents = All-delete_where p _ t.documents v.documents;
    chunks = left (λ r. r.document_id) (λ d. d.id) p t.document_chunks t.documents v.chunks;
    chunk_users = All-delete_where _ _ t.document_chunks v.chunk_users;
  }

  module _ (p : SearchRow → Bool) where
    abbrev doomed : List Uuid
    doomed = map (λ s. s.id) (filter p t.recurring_searches)

    abbrev cut : JobRow → JobRow
    cut j = record j { recurring_search_id = none }

    spared_link :
        (o : Option Uuid)
        → has_link o t.recurring_searches ≡ true
        → is_linked_to doomed o ≡ false
        → has_link o (delete_where p t.recurring_searches) ≡ true
    spared_link none h k = refl
    spared_link (some id) h k = any-spared (λ s. s.id) p id t.recurring_searches h k

    cut_links :
        (jobs : List JobRow)
        → All (λ j. has_link j.recurring_search_id t.recurring_searches ≡ true) jobs
        → All
            (λ j. has_link j.recurring_search_id (delete_where p t.recurring_searches) ≡ true)
            (update_where (λ j. is_linked_to doomed j.recurring_search_id) cut jobs)
    unfolding update_where
    cut_links [] h = tt
    cut_links (j ∷ jobs) h = elim (Bool-cases (is_linked_to doomed j.recurring_search_id)) [
      | inl hit ↦ rw hit (refl, cut_links jobs h.1)
      | inr miss ↦ rw miss (spared_link j.recurring_search_id h.0 miss, cut_links jobs h.1)
    ]

    same_jobs :
        {R : Type 0} (ref : R → Uuid) (rows : List R)
        → All (λ r. has_job (ref r) t ≡ true) rows
        → All (λ r. has_job (ref r) (drop_searches p t) ≡ true) rows
    unfolding drop_searches
    same_jobs ref rows h =
        All-map _ _
          (λ r e.
            any-update_where (λ (j : JobRow). j.id == ref r) _ cut t.research_jobs (λ j. refl) ∙ e)
          rows h

    pub drop_searches-IsIntact : IsIntact (drop_searches p t)
    unfolding drop_searches
    drop_searches-IsIntact = record {
      tokens = v.tokens;
      jobs = All-update_where _ _ cut t.research_jobs (λ j h. h) v.jobs;
      links = cut_links t.research_jobs v.links;
      results = same_jobs (λ r. r.job_id) t.search_results v.results;
      steps = same_jobs (λ r. r.job_id) t.agent_steps v.steps;
      searches = All-delete_where p _ t.recurring_searches v.searches;
      events = v.events;
      channels = v.channels;
      documents = v.documents;
      chunks = v.chunks;
      chunk_users = v.chunk_users;
    }

-- The user that is deleted last.
module _ {t : Tables} (v : IsIntact t) (id : Uuid) where
  abbrev minus_user : List User
  minus_user = delete_where (λ (u : User). u.id == id) t.users

  other_user :
      (u : Uuid) → has_user u t ≡ true → (u == id) ≡ false → any (λ w. w.id == u) minus_user ≡ true
  other_user u h n =
      any-delete_where (λ (w : User). w.id == u) (λ (w : User). w.id == id) t.users
        (λ w e. ground arith) h

  owners :
      {R : Type 0} (owner : R → Uuid) (rows : List R)
      → All (λ r. has_user (owner r) t ≡ true) rows
      → All (λ r. (owner r == id) ≡ false) rows
      → All (λ r. any (λ w. w.id == owner r) minus_user ≡ true) rows
  owners owner rows h n = All-both _ _ _ rows (λ r e f. other_user (owner r) e f) h n

  left_owners :
      {R : Type 0} (owner : R → Uuid) (rows : List R)
      → All (λ r. has_user (owner r) t ≡ true) rows
      → All
          (λ r. any (λ w. w.id == owner r) minus_user ≡ true)
          (delete_where (λ r. owner r == id) rows)
  left_owners owner rows h =
      owners owner _ (All-delete_where _ _ rows h) (delete_where-All (λ r. owner r == id) rows)

  actor :
      (e : SecurityEvent)
      → has_actor e.user_id t.users ≡ true
      → is_event_of id e ≡ false
      → has_actor e.user_id minus_user ≡ true
  actor e h n = actor_of e.user_id h n
    where
      actor_of :
          (o : Option Uuid)
          → has_actor o t.users ≡ true
          → (elim o [ none ↦ false | some u ↦ u == id ]) ≡ false
          → has_actor o minus_user ≡ true
      actor_of none h n = refl
      actor_of (some u) h n = other_user u h n

  actors :
      (events : List SecurityEvent)
      → All (λ e. has_actor e.user_id t.users ≡ true) events
      → All
          (λ e. has_actor e.user_id minus_user ≡ true)
          (update_where (is_event_of id) (λ e. record e { user_id = none }) events)
  unfolding update_where
  actors [] h = tt
  actors (e ∷ events) h = elim (Bool-cases (is_event_of id e)) [
    | inl hit ↦ rw hit (refl, actors events h.1)
    | inr miss ↦ rw miss (actor e h.0 miss, actors events h.1)
  ]

  without_user :
      All (λ (j : JobRow). (j.user_id == id) ≡ false) t.research_jobs
      → All (λ (r : SearchRow). (r.user_id == id) ≡ false) t.recurring_searches
      → All (λ (d : DocumentRow). (d.user_id == id) ≡ false) t.documents
      → IsIntact (drop_rows_of id t)
  unfolding drop_rows_of
  without_user jobs searches documents = record {
    tokens = left_owners (λ r. r.user_id) t.refresh_tokens v.tokens;
    jobs = owners (λ r. r.user_id) t.research_jobs v.jobs jobs;
    links = v.links;
    results = v.results;
    steps = v.steps;
    searches = owners (λ r. r.user_id) t.recurring_searches v.searches searches;
    events = actors t.security_events v.events;
    channels = left_owners (λ r. r.user_id) t.notification_channels v.channels;
    documents = owners (λ r. r.user_id) t.documents v.documents documents;
    chunks = All-delete_where _ _ t.document_chunks v.chunks;
    chunk_users = left_owners (λ r. r.user_id) t.document_chunks v.chunk_users;
  }

pub drop_user-IsIntact : {t : Tables} → IsIntact t → (id : Uuid) → IsIntact (drop_user id t)
unfolding drop_user drop_jobs drop_searches drop_documents
drop_user-IsIntact {t} v id =
    let v₁ = drop_jobs-IsIntact v (λ j. j.user_id == id) in
    let v₂ = drop_searches-IsIntact v₁ (λ s. s.user_id == id) in
    let v₃ = drop_documents-IsIntact v₂ (λ d. d.user_id == id) in
    without_user v₃ id
      (All-update_where _ _ _ _ (λ j h. h)
        (delete_where-All (λ j. j.user_id == id) t.research_jobs))
      (delete_where-All (λ r. r.user_id == id) t.recurring_searches)
      (delete_where-All (λ d. d.user_id == id) t.documents)
