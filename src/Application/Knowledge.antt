-- ===== src/Application/Knowledge.antt =====
-- backend/src/application/knowledge.rs: the knowledge base.
pub mod Scope
pub mod Uploads
use ai_agent_boilerplate.Prelude.{ℕ, Bool, List, ◌++◌}
use ai_agent_boilerplate.Text.{Text, codes}
use ai_agent_boilerplate.Exec.{
  ◌>>=◌, ◌>>◌, Exec, Result, ok, err, pure, from_result, convert, map_err, attempt, ok_or,
}
use ai_agent_boilerplate.Domain.{Uuid, Time}
use ai_agent_boilerplate.Domain.Document.{
  Document, DocumentError, NewChunk, RetrievedChunk, new, validate_content,
}
use ai_agent_boilerplate.Ports.{
  Port, PortError, port_error, DocumentRepository, JobRepository, EmbedDispatcher,
}

pub data KnowledgeError : Type 0 where
  document_not_found job_not_found : KnowledgeError
  invalid : DocumentError → KnowledgeError
  infrastructure : PortError → KnowledgeError

-- `format!("embedding dispatch failed: {e}")`
unfoldable pub embed_failure : PortError → Text
embed_failure (port_error message) = codes "embedding dispatch failed: " ++ message

module _ {S : Type 0} (documents : DocumentRepository S) (jobs : JobRepository S)
    (embed : EmbedDispatcher S) where
  -- The failure to record the failure is dropped too (`.ok()`).
  abbrev pub embed_sent : Document → Result PortError Unit → Exec KnowledgeError S Document
  embed_sent document (ok _) = pure document
  embed_sent document (err e) = do
    attempt {E' = KnowledgeError} (documents.mark_failed document.id (embed_failure e))
    pure document

  unfoldable pub upload : Uuid → Time → Uuid → Text → Text → Exec KnowledgeError S Document
  upload id now user_id name content = do
    from_result (convert invalid (validate_content content))
    document ← from_result (convert invalid (new id now user_id name))
    map_err infrastructure (documents.insert document)
    sent ← attempt (embed.dispatch_embed document.id document.name content)
    embed_sent document sent

  unfoldable pub list : Uuid → Port S (List Document)
  list user_id = documents.list_for_user user_id

  unfoldable pub delete : Uuid → Uuid → Port S Bool
  delete user_id id = documents.delete user_id id

  unfoldable pub store_chunks : Uuid → List NewChunk → Exec KnowledgeError S Unit
  store_chunks document_id chunks = do
    found ← map_err infrastructure (documents.find document_id)
    document ← ok_or document_not_found found
    map_err infrastructure (documents.store_chunks document chunks)

  unfoldable pub mark_failed : Uuid → Text → Port S Unit
  mark_failed document_id error = documents.mark_failed document_id error

  unfoldable pub retrieve_for_job : Uuid → List ℕ → ℕ → Exec KnowledgeError S (List RetrievedChunk)
  retrieve_for_job job_id embedding k = do
    found ← map_err infrastructure (jobs.find job_id)
    job ← ok_or job_not_found found
    map_err infrastructure (documents.retrieve job.user_id embedding k)
