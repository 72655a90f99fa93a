-- ===== src/InMemory/Documents.antt =====
-- `InMemoryDocumentRepository`: documents, their chunks, and the nearest chunks to an embedding.
use ai_agent_boilerplate.Prelude.{
  ℕ, ◌-◌, Bool, true, false, not, ◌||◌, Option, none, some, List, [], ◌∷◌, ◌++◌, map, leb, ◌==◌,
  if◌then◌else◌, length, take, filter,
}
use ai_agent_boilerplate.Exec.{ok}
use ai_agent_boilerplate.Text.{Text}
use ai_agent_boilerplate.Map
use ai_agent_boilerplate.Map.{Map, get, values, retain, modify, remove}
use ai_agent_boilerplate.Sort.{sort_by}
use ai_agent_boilerplate.Domain.{Uuid}
use ai_agent_boilerplate.Domain.Document.{Document, NewChunk, RetrievedChunk, ready, failed}
use ai_agent_boilerplate.Ports.{Port}

pub record StoredChunk : Type 0 where
  pub document_id : Uuid
  pub user_id : Uuid
  pub content : Text
  pub embedding : List ℕ
  pub document_name : Text

pub record Documents : Type 0 where
  pub documents : Map Document
  pub chunks : List StoredChunk

-- `f32` arithmetic on bit patterns, with the order of `total_cmp`: the hardware's.
pub record Float32 : Type 0 where
  pub zero_f32 : ℕ
  pub empty_sum : ℕ
  pub is_zero : ℕ → Bool
  pub mul_f32 : ℕ → ℕ → ℕ
  pub add_f32 : ℕ → ℕ → ℕ
  pub div_f32 : ℕ → ℕ → ℕ
  pub sqrt_f32 : ℕ → ℕ
  pub total_le : ℕ → ℕ → Bool

unfoldable pub insert : Document → Port Documents Unit
insert document s = (ok tt, record s { documents = Map.insert document.id document s.documents })

abbrev pub newest_document_first : Document → Document → Bool
newest_document_first a b = leb b.created_at a.created_at

unfoldable pub list_for_user : Uuid → Port Documents (List Document)
list_for_user user_id s = (
  ok (sort_by newest_document_first (filter (λ d. d.user_id == user_id) (values s.documents))),
  s,
)

unfoldable pub find : Uuid → Port Documents (Option Document)
find id s = (ok (get id s.documents), s)

abbrev pub delete_found : Uuid → Uuid → Option Document → Port Documents Bool
delete_found user_id id none s = (ok false, s)
delete_found user_id id (some d) s =
    if d.user_id == user_id
    then (
      ok true,
      record {
        documents = remove id s.documents;
        chunks = filter (λ c. not (c.document_id == id)) s.chunks;
      },
    )
    else (ok false, s)

unfoldable pub delete : Uuid → Uuid → Port Documents Bool
delete user_id id s = delete_found user_id id (get id s.documents) s

abbrev pub stored : Document → NewChunk → StoredChunk
stored document chunk = record {
  document_id = document.id;
  user_id = document.user_id;
  content = chunk.content;
  embedding = chunk.embedding;
  document_name = document.name;
}

abbrev pub mark_ready : Document → Document
mark_ready d = record d { status = ready; error = none }

unfoldable pub store_chunks : Document → List NewChunk → Port Documents Unit
store_chunks document chunks s = (
  ok tt,
  record {
    documents = modify document.id mark_ready s.documents;
    chunks = s.chunks ++ map (stored document) chunks;
  },
)

abbrev pub mark_error : Text → Document → Document
mark_error error d = record d { status = failed; error = some error }

unfoldable pub mark_failed : Uuid → Text → Port Documents Unit
mark_failed id error s = (ok tt, record s { documents = modify id (mark_error error) s.documents })

module _ (f : Float32) where
  -- `a.iter().zip(b).map(|(x, y)| x * y).sum()`
  unfoldable pub dot : ℕ → List ℕ → List ℕ → ℕ
  dot acc [] bs = acc
  dot acc (a ∷ as') [] = acc
  dot acc (a ∷ as') (b ∷ bs) = dot (f.add_f32 acc (f.mul_f32 a b)) as' bs

  unfoldable pub cosine : List ℕ → List ℕ → ℕ
  cosine a b =
      let na = f.sqrt_f32 (dot f.empty_sum a a) in
      let nb = f.sqrt_f32 (dot f.empty_sum b b) in
      if f.is_zero na || f.is_zero nb
      then f.zero_f32
      else f.div_f32 (dot f.empty_sum a b) (f.mul_f32 na nb)

  -- Nearest first, `b.0.total_cmp(&a.0)`.
  abbrev pub nearest_first : List ℕ → StoredChunk → StoredChunk → Bool
  nearest_first embedding a b =
      f.total_le (cosine embedding b.embedding) (cosine embedding a.embedding)

  unfoldable pub retrieve : Uuid → List ℕ → ℕ → Port Documents (List RetrievedChunk)
  retrieve user_id embedding k s = (
    ok (
        map (λ c. record { content = c.content; document_name = c.document_name })
          (take k
            (sort_by (nearest_first embedding) (filter (λ c. c.user_id == user_id) s.chunks)))),
    s,
  )

unfoldable pub delete_all_for_user : Uuid → Port Documents ℕ
delete_all_for_user user_id s =
    let kept = retain (λ _ d. not (d.user_id == user_id)) s.documents in
    (
      ok (length s.documents - length kept),
      record { documents = kept; chunks = filter (λ c. not (c.user_id == user_id)) s.chunks },
    )
