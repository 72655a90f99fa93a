-- ===== src/Http/Documents.antt =====
-- The handlers of the knowledge base: the user's documents, and the agent's callbacks on them.
use ai_agent_boilerplate.Prelude.{ℕ, Bool, true, false, List, map}
use ai_agent_boilerplate.Text.{Text, codes}
use ai_agent_boilerplate.Exec.{Result, ok, err}
use ai_agent_boilerplate.Domain.{Uuid, Time}
use ai_agent_boilerplate.Domain.Document.{Document, NewChunk, RetrievedChunk}
use ai_agent_boilerplate.Ports.{PortError}
use ai_agent_boilerplate.Application.Knowledge
use ai_agent_boilerplate.Application.Knowledge.{
  KnowledgeError, document_not_found, job_not_found, invalid,
}
use ai_agent_boilerplate.Http.Headers.{Headers}
use ai_agent_boilerplate.Http.Views.{
  Response, respond, no_content, error_body, internal_error, document, documents, document_view,
  chunks,
}
use ai_agent_boilerplate.Http.State.{AppState, Handler, answer, with_user, with_internal_token}

pub record CreateDocumentRequest : Type 0 where
  pub name : Text
  pub content : Text

pub record RetrieveRequest : Type 0 where
  pub job_id : Uuid
  pub embedding : List ℕ
  pub k : ℕ

abbrev pub default_retrieve_k : ℕ
default_retrieve_k = 5

abbrev pub listed_documents : Result PortError (List Document) → Response
listed_documents (ok docs) = respond 200 (documents (map document_view docs))
listed_documents (err e) = internal_error

abbrev pub removed_document : Result PortError Bool → Response
removed_document (ok true) = no_content
removed_document (ok false) = error_body 404 (codes "document not found")
removed_document (err e) = internal_error

abbrev pub stored_chunks : Result KnowledgeError Unit → Response
stored_chunks (ok _) = no_content
stored_chunks (err document_not_found) = error_body 404 (codes "document not found")
stored_chunks (err job_not_found) = internal_error
stored_chunks (err (invalid e)) = internal_error
stored_chunks (err (Knowledge.infrastructure e)) = internal_error

abbrev pub marked_failed : Result PortError Unit → Response
marked_failed (ok _) = no_content
marked_failed (err e) = internal_error

abbrev pub retrieved : Result KnowledgeError (List RetrievedChunk) → Response
retrieved (ok list) = respond 200 (chunks list)
retrieved (err job_not_found) = error_body 404 (codes "job not found")
retrieved (err document_not_found) = internal_error
retrieved (err (invalid e)) = internal_error
retrieved (err (Knowledge.infrastructure e)) = internal_error

module _ {S : Type 0} (state : AppState S) where
  unfoldable pub list_documents : Headers → Handler S
  list_documents headers = with_user state headers λ user_id.
      answer (Knowledge.list state.documents state.jobs state.embed user_id) listed_documents

  abbrev pub uploaded : Result KnowledgeError Document → Response
  uploaded (ok d) = respond 201 (document (document_view d))
  uploaded (err (invalid e)) = error_body 422 (state.library.document_error_text e)
  uploaded (err document_not_found) = internal_error
  uploaded (err job_not_found) = internal_error
  uploaded (err (Knowledge.infrastructure e)) = internal_error

  unfoldable pub create_document : Uuid → Time → Headers → CreateDocumentRequest → Handler S
  create_document id now headers body = with_user state headers λ user_id.
      answer
        (Knowledge.upload state.documents state.jobs state.embed id now user_id body.name
          body.content)
        uploaded

  unfoldable pub delete_document : Headers → Uuid → Handler S
  delete_document headers id = with_user state headers λ user_id.
      answer (Knowledge.delete state.documents state.jobs state.embed user_id id) removed_document

  unfoldable pub internal_store_chunks : Uuid → Headers → List NewChunk → Handler S
  internal_store_chunks document_id headers body = with_internal_token state headers (
      answer (Knowledge.store_chunks state.documents state.jobs state.embed document_id body)
        stored_chunks)

  unfoldable pub internal_document_failure : Uuid → Headers → Text → Handler S
  internal_document_failure document_id headers error = with_internal_token state headers (
      answer (Knowledge.mark_failed state.documents state.jobs state.embed document_id error)
        marked_failed)

  unfoldable pub internal_retrieve : Headers → RetrieveRequest → Handler S
  internal_retrieve headers body = with_internal_token state headers (
      answer
        (Knowledge.retrieve_for_job state.documents state.jobs state.embed body.job_id
          body.embedding body.k)
        retrieved)
