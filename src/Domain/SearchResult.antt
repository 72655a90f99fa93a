-- ===== src/Domain/SearchResult.antt =====
-- backend/src/domain/search_result.rs: one finding, and the order of the timeline.
pub mod Timeline
use ai_agent_boilerplate.Prelude.{Bool, true, false, Option, none, some, List, leb}
use ai_agent_boilerplate.Text.{Text}
use ai_agent_boilerplate.Sort.{sort_by}
use ai_agent_boilerplate.Domain.{Time}

pub data DateConfidence : Type 0 where
  high medium unknown : DateConfidence

pub data EventType : Type 0 where
  announcement release funding legal incident research opinion other : EventType

-- `raw`, a JSON value that the backend only stores, is its text.
pub record SearchResult : Type 0 where
  pub title : Text
  pub url : Text
  pub snippet : Text
  pub published_at : Option Time
  pub date_confidence : DateConfidence
  pub event_type : EventType
  pub summary : Option Text
  pub is_new : Bool
  pub raw : Text

-- `Option<T>: Ord`, with `None` least.
abbrev pub option_le : Option Time → Option Time → Bool
option_le none b = true
option_le (some a) none = false
option_le (some a) (some b) = leb a b

-- The order of the keys `Reverse(r.published_at)`.
unfoldable pub newest_first : SearchResult → SearchResult → Bool
newest_first a b = option_le b.published_at a.published_at

unfoldable pub sort_by_publication_date : List SearchResult → List SearchResult
sort_by_publication_date results = sort_by newest_first results
