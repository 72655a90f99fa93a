-- ===== src/Postgres/Integrity/Transactions.antt =====
-- `store_results` and `store_chunks`, and the references between the tables.
use ai_agent_boilerplate.Prelude.{not, ◌&&◌, none, List, [], ◌∷◌, arith, ◌==◌, length}
use ai_agent_boilerplate.Exec.{◌>>◌}
use ai_agent_boilerplate.Text.{codes}
use ai_agent_boilerplate.Domain.{Uuid}
use ai_agent_boilerplate.Domain.SearchResult.{SearchResult}
use ai_agent_boilerplate.Domain.Document.{Document, NewChunk}
use ai_agent_boilerplate.Postgres.Tables.{delete_where}
use ai_agent_boilerplate.Postgres.Tables.Laws.{All-delete_where}
use ai_agent_boilerplate.Postgres.Server.{Server, execute}
use ai_agent_boilerplate.Postgres.Users
use ai_agent_boilerplate.Postgres.Results
use ai_agent_boilerplate.Postgres.Documents
use ai_agent_boilerplate.Postgres.Integrity.{has_document}
use ai_agent_boilerplate.Postgres.Integrity.Replaced.{set_results-IsIntact, set_chunks-IsIntact}
use ai_agent_boilerplate.Postgres.Integrity.Inserts.{insert_result-IsIntact, insert_chunk-IsIntact}
use ai_agent_boilerplate.Postgres.Integrity.Statements.{
  Keeps, refused_if, refused_unless, execute-Keeps, transaction-Keeps, seq-Keeps,
}
use ai_agent_boilerplate.Postgres.Integrity.Rows.{update_documents-IsIntact}

wipe_results-Keeps : (id : Uuid) → Keeps (execute (Results.delete_results id))
wipe_results-Keeps id = execute-Keeps (Results.delete_results id) (λ t v.
    set_results-IsIntact v (Results.wiped id t).search_results
      (All-delete_where _ _ t.search_results v.results))

wipe_chunks-Keeps : (id : Uuid) → Keeps (execute (Documents.delete_chunks id))
wipe_chunks-Keeps id = execute-Keeps (Documents.delete_chunks id) (λ t v.
    set_chunks-IsIntact v (delete_where (λ c. c.document_id == id) t.document_chunks)
      (All-delete_where _ _ t.document_chunks v.chunks)
      (All-delete_where _ _ t.document_chunks v.chunk_users))

module _ (server : Server) where
  insert_result-Keeps :
      (id : Uuid) (r : SearchResult) → Keeps (execute (Results.insert_result server id r))
  insert_result-Keeps id r = execute-Keeps (Results.insert_result server id r) (λ t v.
      refused_unless (Results.has_job id t) server.foreign_key_violation _
        (λ e. insert_result-IsIntact v (Results.result_row server id r) e))

  insert_results-Keeps :
      (id : Uuid) (rs : List SearchResult) → Keeps (Results.insert_results server id rs)
  unfolding Results.insert_results
  insert_results-Keeps id [] = λ db v. v
  insert_results-Keeps id (r ∷ rs) =
      seq-Keeps (execute (Results.insert_result server id r)) (Results.insert_results server id rs)
        (insert_result-Keeps id r) (insert_results-Keeps id rs)

  pub store_results-Keeps :
      (id : Uuid) (rs : List SearchResult) → Keeps (Results.store_results server id rs)
  unfolding Results.store_results
  store_results-Keeps id rs =
      transaction-Keeps (execute (Results.delete_results id) >> Results.insert_results server id rs)
        (seq-Keeps (execute (Results.delete_results id)) (Results.insert_results server id rs)
          (wipe_results-Keeps id) (insert_results-Keeps id rs))

  insert_chunk-Keeps :
      (d : Document) (c : NewChunk) → Keeps (execute (Documents.insert_chunk server d c))
  insert_chunk-Keeps d c = execute-Keeps (Documents.insert_chunk server d c) (λ t v.
      refused_if (not (length c.embedding == Documents.dimension)) server.dimension_mismatch _ (
        refused_unless (has_document d.id t && Users.has_user d.user_id t)
          server.foreign_key_violation _
          (λ e. insert_chunk-IsIntact v (Documents.chunk_row d c) (ground arith) (ground arith))))

  insert_chunks-Keeps :
      (d : Document) (cs : List NewChunk) → Keeps (Documents.insert_chunks server d cs)
  unfolding Documents.insert_chunks
  insert_chunks-Keeps d [] = λ db v. v
  insert_chunks-Keeps d (c ∷ cs) =
      seq-Keeps (execute (Documents.insert_chunk server d c)) (Documents.insert_chunks server d cs)
        (insert_chunk-Keeps d c) (insert_chunks-Keeps d cs)

  ready-Keeps : (id : Uuid) → Keeps (execute (Documents.update_document id Documents.set_ready))
  ready-Keeps id =
      execute-Keeps (Documents.update_document id Documents.set_ready)
        (λ t v. update_documents-IsIntact v (λ d. d.id == id) (codes "ready") none)

  pub store_chunks-Keeps :
      (d : Document) (cs : List NewChunk) → Keeps (Documents.store_chunks server d cs)
  unfolding Documents.store_chunks
  store_chunks-Keeps d cs =
      let rest = execute (Documents.update_document d.id Documents.set_ready) in
      let write = Documents.insert_chunks server d cs in
      let wipe = execute (Documents.delete_chunks d.id) in
      transaction-Keeps (wipe >> (write >> rest)) (
        seq-Keeps wipe (write >> rest) (wipe_chunks-Keeps d.id)
          (seq-Keeps write rest (insert_chunks-Keeps d cs) (ready-Keeps d.id)))
