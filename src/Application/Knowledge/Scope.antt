-- ===== src/Application/Knowledge/Scope.antt =====
-- The agent's retrieval stays within the documents of the job's owner, over the in-memory stack.
use ai_agent_boilerplate.Prelude.{
  ℕ, suc, ◌≤◌, ◌≡◌, refl, ap, inl, inr, Bool, true, ◌&&◌, Option, none, some, List, [], ◌∷◌, map,
  arith, ◌==◌, Option-cases, length, take, filter, any, All, length-take, All-take, All-map,
  filter_passes,
}
use ai_agent_boilerplate.Text.{Text, text_eq, text_eq_refl}
use ai_agent_boilerplate.Exec.{Result, ok, err}
use ai_agent_boilerplate.Map.{get}
use ai_agent_boilerplate.Sort.{sort_by}
use ai_agent_boilerplate.Sort.Laws.{All-sort_by}
use ai_agent_boilerplate.Domain.{Uuid}
use ai_agent_boilerplate.Domain.Job.{ResearchJob}
use ai_agent_boilerplate.Domain.Document.{RetrievedChunk}
use ai_agent_boilerplate.Ports.{Port}
use ai_agent_boilerplate.InMemory.Jobs
use ai_agent_boilerplate.InMemory.Documents
use ai_agent_boilerplate.InMemory.Documents.{Float32, StoredChunk, nearest_first}
use ai_agent_boilerplate.InMemory.World.{
  World, job_repository, document_repository, embed_dispatcher,
}
use ai_agent_boilerplate.Application.Knowledge.{KnowledgeError, job_not_found, retrieve_for_job}

-- The user has stored a chunk with this content, of a document with this name.
abbrev pub has_chunk : Uuid → List StoredChunk → RetrievedChunk → Bool
has_chunk user_id chunks r =
    any
      (λ c.
        c.user_id == user_id
        && (text_eq c.content r.content && text_eq c.document_name r.document_name))
      chunks

abbrev pub shown : StoredChunk → RetrievedChunk
shown c = record { content = c.content; document_name = c.document_name }

-- Each stored chunk of the user is one that the user has stored.
stored_by_user :
    (user_id : Uuid) (chunks : List StoredChunk)
    → All (λ c. c.user_id == user_id ≡ true → has_chunk user_id chunks (shown c) ≡ true) chunks
stored_by_user user_id [] = tt
stored_by_user user_id (c ∷ chunks) = (
  λ own. ground (arith, own, text_eq_refl c.content, text_eq_refl c.document_name),
  All-map (λ d. d.user_id == user_id ≡ true → has_chunk user_id chunks (shown d) ≡ true) _
      (λ d h own. ground (arith, h own)) chunks (stored_by_user user_id chunks),
)

All-shown :
    (user_id : Uuid) (stored chunks : List StoredChunk)
    → All (λ c. has_chunk user_id stored (shown c) ≡ true) chunks
    → All (λ r. has_chunk user_id stored r ≡ true) (map shown chunks)
All-shown user_id stored [] h = tt
All-shown user_id stored (c ∷ chunks) h = (h.0, All-shown user_id stored chunks h.1)

length-map : {A B : Type 0} (f : A → B) (xs : List A) → length (map f xs) ≡ length xs
length-map f [] = refl
length-map f (x ∷ xs) = ap suc (length-map f xs)

module _ {X : Type 0} (add_f64 : ℕ → ℕ → ℕ) (f : Float32) (send : Uuid → Text → Text → Port X Unit)
    (job_id : Uuid) (embedding : List ℕ) (k : ℕ) where
  unfoldable pub retrieve : World X → Result KnowledgeError (List RetrievedChunk) × World X
  retrieve =
      retrieve_for_job (document_repository f) (job_repository add_f64) (embed_dispatcher send)
        job_id embedding k

  -- What a retrieval for a stored job returns, or for an unknown one.
  abbrev pub Retrieval : World X → Option ResearchJob → Type 0
  Retrieval w none = retrieve w ≡ (err job_not_found, w)
  Retrieval w (some job) =
      (chunks : List RetrievedChunk) × (retrieve w ≡ (ok chunks, w))
      × (length chunks ≤ k)
      × All (λ r. has_chunk job.user_id w.documents.chunks r ≡ true) chunks

  -- The user's chunks, nearest first, and as many of them as are asked for.
  abbrev sorted : Uuid → World X → List StoredChunk
  sorted user_id w =
      sort_by (nearest_first f embedding) (filter (λ c. c.user_id == user_id) w.documents.chunks)

  abbrev nearest : Uuid → World X → List StoredChunk
  nearest user_id w = take k (sorted user_id w)

  abbrev IsStored : Uuid → World X → StoredChunk → Type 0
  IsStored user_id w c = has_chunk user_id w.documents.chunks (shown c) ≡ true

  -- A retrieval for a stored job changes nothing and returns at most k chunks, each with the
  -- content and document name of a chunk that the job's owner has stored; one for an unknown job
  -- is refused with nothing changed.
  pub retrieve-Retrieval : (w : World X) → Retrieval w (get job_id w.jobs.jobs)
  unfolding retrieve retrieve_for_job Jobs.find Documents.retrieve
  retrieve-Retrieval w = elim (Option-cases (get job_id w.jobs.jobs)) [
    | inl missing ↦ rw missing (rw missing refl)
    | inr (job, found) ↦ rw found (
      map shown (nearest job.user_id w),
      rw found refl,
      omega (arith, length-map shown (nearest job.user_id w), length-take k (sorted job.user_id w)),
      All-shown job.user_id w.documents.chunks (nearest job.user_id w) (
          All-take (IsStored job.user_id w) k (sorted job.user_id w) (
            All-sort_by (nearest_first f embedding) (IsStored job.user_id w) _ (
              filter_passes (IsStored job.user_id w) (λ c. c.user_id == job.user_id)
                w.documents.chunks (stored_by_user job.user_id w.documents.chunks)))),
    )
  ]
