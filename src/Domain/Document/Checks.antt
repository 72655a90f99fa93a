-- ===== src/Domain/Document/Checks.antt =====
-- What an accepted upload satisfies.
use ai_agent_boilerplate.Prelude.{◌≤◌, ◌≡◌, none, arith, length}
use ai_agent_boilerplate.Exec.{ok}
use ai_agent_boilerplate.Text.{Text, trim}
use ai_agent_boilerplate.Text.Trim.{trim_idem}
use ai_agent_boilerplate.Domain.{Uuid, Time}
use ai_agent_boilerplate.Domain.Job.Lifecycle.{IsClean}
use ai_agent_boilerplate.Domain.Document.{
  Document, pending, new, validate_content, max_document_name_len, max_document_content_len,
}

pub new_pending :
    (id : Uuid) (now : Time) (user_id : Uuid) (name : Text) {d : Document}
    → new id now user_id name ≡ ok d
    → IsClean max_document_name_len d.name
      × (d.status ≡ pending)
      × (d.error ≡ none)
      × (d.user_id ≡ user_id)
      × (d.id ≡ id)
unfolding new
new_pending id now user_id name e = ground (arith, trim_idem name)

pub content_bounded :
    (content : Text)
    → validate_content content ≡ ok tt
    → (1 ≤ length (trim content)) × (length content ≤ max_document_content_len)
unfolding validate_content
content_bounded content e = ground arith
