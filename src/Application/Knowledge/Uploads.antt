-- ===== src/Application/Knowledge/Uploads.antt =====
-- Every way in which an upload can end, over the in-memory stack and any agent.
use ai_agent_boilerplate.Prelude.{ℕ, ◌≡◌, refl, ◌⊎◌, inl, inr, some, ==-refl}
use ai_agent_boilerplate.Text.{Text}
use ai_agent_boilerplate.Exec.{Result, ok, err, Result-cases}
use ai_agent_boilerplate.Map.{get}
use ai_agent_boilerplate.Map.Laws.{get-insert, get-modify}
use ai_agent_boilerplate.Domain.{Uuid, Time}
use ai_agent_boilerplate.Domain.Document.{Document, new, validate_content}
use ai_agent_boilerplate.Ports.{Port, PortError}
use ai_agent_boilerplate.InMemory.Documents
use ai_agent_boilerplate.InMemory.Documents.{Float32, mark_error}
use ai_agent_boilerplate.InMemory.World.{
  World, job_repository, document_repository, embed_dispatcher,
}
use ai_agent_boilerplate.Application.Knowledge
use ai_agent_boilerplate.Application.Knowledge.{
  KnowledgeError, job_not_found, document_not_found, invalid, infrastructure, embed_failure,
}

module _ {X : Type 0} (add_f64 : ℕ → ℕ → ℕ) (f : Float32) (send : Uuid → Text → Text → Port X Unit)
    (id : Uuid) (now : Time) (user_id : Uuid) (name content : Text) where
  unfoldable pub upload : World X → Result KnowledgeError Document × World X
  upload =
      Knowledge.upload (document_repository f) (job_repository add_f64) (embed_dispatcher send) id
        now user_id name content

  -- What is stored of a document, by what became of the request to embed it.
  abbrev pub stored_as : Document → Result PortError Unit → Document
  stored_as document (ok _) = document
  stored_as document (err e) = mark_error (embed_failure e) document

  -- What an upload in `w` leaves, for each of its results.
  abbrev pub UploadOutcome : World X → Result KnowledgeError Document → World X → Type 0
  UploadOutcome w (ok document) w' =
      (validate_content content ≡ ok tt)
      × (new id now user_id name ≡ ok document)
      × (get document.id w'.documents.documents
          ≡ some (stored_as document (send document.id document.name content w.outside).0))
      × (w'.documents.chunks ≡ w.documents.chunks)
  UploadOutcome w (err (invalid e)) w' =
      (w' ≡ w) × ((validate_content content ≡ err e) ⊎ (new id now user_id name ≡ err e))
  UploadOutcome w (err document_not_found) w' = ⊥
  UploadOutcome w (err job_not_found) w' = ⊥
  UploadOutcome w (err (infrastructure e)) w' = ⊥

  -- An upload with valid content and name stores the new document and no chunk, marked failed by
  -- the reason if the request to embed it fails, and succeeds either way; any other is refused
  -- with the reason and nothing changed.
  pub upload_outcome : (w : World X) → UploadOutcome w (upload w).0 (upload w).1
  unfolding upload Knowledge.upload Documents.insert Documents.mark_failed
  upload_outcome w = elim (Result-cases (validate_content content)) [
    | inr (e, bad) ↦ rw bad (refl, inl bad)
    | inl (_, fine) ↦ elim (Result-cases (new id now user_id name)) [
      | inr (e, bad) ↦ rw (fine, bad) (refl, inr bad)
      | inl (d, good) ↦ elim (Result-cases (send d.id d.name content w.outside).0) [
        | inl (_, sent) ↦
            rw (fine, good, sent)
              (fine, good, rw get-insert (rw (==-refl d.id) (rw sent refl)), refl)
        | inr (e, lost) ↦
            rw (fine, good, lost)
              (
                fine,
                good,
                rw get-modify
                    (rw (==-refl d.id) (rw get-insert (rw (==-refl d.id) (rw lost refl)))),
                refl,
              )
      ]
    ]
  ]
