-- ===== src/Postgres/Documents.antt =====
-- `PostgresDocumentRepository`: documents and their embedded chunks.
use ai_agent_boilerplate.Prelude.{
  ℕ, Bool, not, ◌&&◌, Option, none, some, List, [], ◌∷◌, ◌++◌, map, ltb, leb, ◌==◌, if◌then◌else◌,
  length, filter, any,
}
use ai_agent_boilerplate.Exec.{ok, err, pure, ◌>>◌}
use ai_agent_boilerplate.Text.{Text, codes}
use ai_agent_boilerplate.Sort.{sort_by}
use ai_agent_boilerplate.Domain.{Uuid}
use ai_agent_boilerplate.Domain.Document.{Document, NewChunk, RetrievedChunk, as_str}
use ai_agent_boilerplate.Ports.{Port}
use ai_agent_boilerplate.Postgres.Tables.{
  map_first, DocumentRow, ChunkRow, delete_where, update_where, first_row, drop_documents,
}
use ai_agent_boilerplate.Postgres.Columns.{doc_status_from_str}
use ai_agent_boilerplate.Postgres.Server.{
  Server, Database, Statement, execute, transaction, query, write,
}
use ai_agent_boilerplate.Postgres.Users.{has_user}
use ai_agent_boilerplate.Postgres.Searches.{any_affected}

unfoldable pub document_from_row : DocumentRow → Document
document_from_row row = record {
  id = row.id;
  user_id = row.user_id;
  name = row.name;
  status = doc_status_from_str row.status;
  error = row.error;
  created_at = row.created_at;
}

abbrev pub newest_row_first : DocumentRow → DocumentRow → Bool
newest_row_first a b = leb b.created_at a.created_at

-- `DELETE FROM documents WHERE p`, with the number of rows affected.
abbrev pub delete_documents : (DocumentRow → Bool) → Statement ℕ
delete_documents p t = ok (length (filter p t.documents), drop_documents p t)

unfoldable pub list_for_user : Server → Uuid → Port Database (List Document)
list_for_user server user_id = execute (
    query (λ t.
      map document_from_row (
        sort_by newest_row_first (server.scan t (filter (λ r. r.user_id == user_id) t.documents)))))

unfoldable pub find : Uuid → Port Database (Option Document)
find id =
    execute
      (query (λ t. map_first document_from_row (first_row (filter (λ r. r.id == id) t.documents))))

unfoldable pub delete : Uuid → Uuid → Port Database Bool
delete user_id id =
    execute (any_affected (delete_documents (λ r. r.id == id && r.user_id == user_id)))

unfoldable pub delete_all_for_user : Uuid → Port Database ℕ
delete_all_for_user user_id = execute (delete_documents (λ r. r.user_id == user_id))

abbrev pub update_document : Uuid → (DocumentRow → DocumentRow) → Statement Unit
update_document id f =
    write (λ t. record t { documents = update_where (λ d. d.id == id) f t.documents })

abbrev pub set_ready : DocumentRow → DocumentRow
set_ready d = record d { status = codes "ready"; error = none }

abbrev pub set_failed : Text → DocumentRow → DocumentRow
set_failed error d = record d { status = codes "failed"; error = some error }

unfoldable pub mark_failed : Uuid → Text → Port Database Unit
mark_failed id error = execute (update_document id (set_failed error))

abbrev pub chunk_row : Document → NewChunk → ChunkRow
chunk_row document chunk = record {
  document_id = document.id;
  user_id = document.user_id;
  seq = chunk.seq;
  content = chunk.content;
  embedding = chunk.embedding;
}

abbrev pub delete_chunks : Uuid → Statement Unit
delete_chunks id = write (λ t. record t {
  document_chunks = delete_where (λ (c : ChunkRow). c.document_id == id) t.document_chunks;
})

-- `vector(768)`
abbrev pub dimension : ℕ
dimension = 768

abbrev pub retrieved : Text → ChunkRow → RetrievedChunk
retrieved name c = record { content = c.content; document_name = name }

-- `JOIN documents d ON d.id = dc.document_id`
unfoldable pub named_chunks : List DocumentRow → List ChunkRow → List RetrievedChunk
named_chunks docs [] = []
named_chunks docs (c ∷ cs) =
    map (λ d. retrieved d.name c) (filter (λ d. d.id == c.document_id) docs) ++ named_chunks docs cs

module _ (server : Server) where
  abbrev pub document_row : Document → DocumentRow
  document_row document = record {
    id = document.id;
    user_id = document.user_id;
    name = document.name;
    status = as_str document.status;
    error = document.error;
    created_at = server.timestamp document.created_at;
  }

  abbrev pub insert_document : Document → Statement Unit
  insert_document document t =
      if any (λ r. r.id == document.id) t.documents
      then err server.unique_violation
      else if has_user document.user_id t
      then ok (tt, record t { documents = t.documents ++ document_row document ∷ [] })
      else err server.foreign_key_violation

  unfoldable pub insert : Document → Port Database Unit
  insert document = execute (insert_document document)

  abbrev pub insert_chunk : Document → NewChunk → Statement Unit
  insert_chunk document chunk t =
      if not (length chunk.embedding == dimension)
      then err server.dimension_mismatch
      else if any (λ d. d.id == document.id) t.documents && has_user document.user_id t
      then ok
          (tt, record t { document_chunks = t.document_chunks ++ chunk_row document chunk ∷ [] })
      else err server.foreign_key_violation

  -- `for chunk in chunks { … }`
  unfoldable pub insert_chunks : Document → List NewChunk → Port Database Unit
  insert_chunks document [] = pure tt
  insert_chunks document (c ∷ cs) = do execute (insert_chunk document c); insert_chunks document cs

  unfoldable pub store_chunks : Document → List NewChunk → Port Database Unit
  unfolding insert_chunks
  store_chunks document chunks = transaction (do
    execute (delete_chunks document.id)
    insert_chunks document chunks
    execute (update_document document.id set_ready))

  -- The index finds the nearest of the user's chunks; a document is joined to each. Embeddings of
  -- another dimension have no distance to those stored.
  abbrev pub near : Uuid → List ℕ → ℕ → Statement (List RetrievedChunk)
  near user_id embedding k t =
      let own = filter (λ c. c.user_id == user_id) t.document_chunks in
      if ltb 0 (length own) && not (length embedding == dimension)
      then err server.dimension_mismatch
      else ok (named_chunks t.documents (server.nearest embedding k own), t)

  unfoldable pub retrieve : Uuid → List ℕ → ℕ → Port Database (List RetrievedChunk)
  retrieve user_id embedding k = execute (near user_id embedding k)
