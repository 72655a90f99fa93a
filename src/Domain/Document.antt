-- ===== src/Domain/Document.antt =====
-- backend/src/domain/document.rs: the knowledge base's documents and their chunks.
pub mod Checks
use ai_agent_boilerplate.Prelude.{ℕ, Option, none, List, ltb, if◌then◌else◌, length}
use ai_agent_boilerplate.Exec.{Result, ok, err}
use ai_agent_boilerplate.Text.{Text, codes, trim, is_empty}
use ai_agent_boilerplate.Domain.{Uuid, Time, now_utc}

abbrev pub max_document_name_len : ℕ
max_document_name_len = 200

abbrev pub max_document_content_len : ℕ
max_document_content_len = 100_000

pub data DocumentStatus : Type 0 where
  pending ready failed : DocumentStatus

unfoldable pub as_str : DocumentStatus → Text
as_str pending = codes "pending"
as_str ready = codes "ready"
as_str failed = codes "failed"

pub data DocumentError : Type 0 where
  empty_name name_too_long empty_content content_too_long : DocumentError

unfoldable pub validate_content : Text → Result DocumentError Unit
validate_content content =
    if is_empty (trim content)
    then err empty_content
    else if ltb max_document_content_len (length content)
    then err content_too_long
    else ok tt

pub record Document : Type 0 where
  pub id : Uuid
  pub user_id : Uuid
  pub name : Text
  pub status : DocumentStatus
  pub error : Option Text
  pub created_at : Time

unfoldable pub new : Uuid → Time → Uuid → Text → Result DocumentError Document
new id now user_id name =
    let n = trim name in
    if is_empty n
    then err empty_name
    else if ltb max_document_name_len (length n)
    then err name_too_long
    else ok (record {
      id = id;
      user_id = user_id;
      name = n;
      status = pending;
      error = none;
      created_at = now_utc now;
    })

-- An `f32` is its bit pattern.
pub record NewChunk : Type 0 where
  pub seq : ℕ
  pub content : Text
  pub embedding : List ℕ

pub record RetrievedChunk : Type 0 where
  pub content : Text
  pub document_name : Text
