-- ===== src/Domain/SearchResult/Timeline.antt =====
-- The timeline: newest first, undated results last, ties in the order of arrival.
use mathlib.Core.List.{Perm}
use ai_agent_boilerplate.Prelude.{
  ◌≤◌, ◌≡◌, Bool, true, false, not, Option, none, some, List, [], ◌∷◌, arith, ◌==◌, leb→le, is_some,
  filter, All,
}
use ai_agent_boilerplate.Sort.Laws.{IsSorted, sort_by-perm, sort_by-IsSorted, filter-sort_by}
use ai_agent_boilerplate.Domain.{Time}
use ai_agent_boilerplate.Domain.SearchResult.{
  option_le, SearchResult, newest_first, sort_by_publication_date,
}

-- `b` may stand after `a`: it is undated, or both have dates and that of `a` is not the older.
abbrev pub NotBefore : Option Time → Option Time → Type 0
NotBefore a none = Unit
NotBefore none (some b) = ⊥
NotBefore (some a) (some b) = b ≤ a

abbrev pub IsTimeline : List SearchResult → Type 0
IsTimeline [] = Unit
IsTimeline (r ∷ rs) = All (λ s. NotBefore r.published_at s.published_at) rs × IsTimeline rs

newest_first_total : (a b : SearchResult) → newest_first a b ≡ false → newest_first b a ≡ true
unfolding newest_first
newest_first_total a b h = ground arith

newest_first_trans :
    (a b c : SearchResult)
    → newest_first a b ≡ true
    → newest_first b c ≡ true
    → newest_first a c ≡ true
unfolding newest_first
newest_first_trans a b c h k = ground arith

NotBefore-of : (a b : Option Time) → option_le b a ≡ true → NotBefore a b
NotBefore-of a none h = tt
NotBefore-of none (some b) h = cc
NotBefore-of (some a) (some b) h = leb→le b a h

All-NotBefore :
    (r : SearchResult) (rs : List SearchResult)
    → All (λ s. newest_first r s ≡ true) rs
    → All (λ s. NotBefore r.published_at s.published_at) rs
unfolding newest_first
All-NotBefore r [] h = tt
All-NotBefore r (s ∷ rs) h =
    (NotBefore-of r.published_at s.published_at h.0, All-NotBefore r rs h.1)

IsTimeline-of : (rs : List SearchResult) → IsSorted newest_first rs → IsTimeline rs
IsTimeline-of [] h = tt
IsTimeline-of (r ∷ rs) h = (All-NotBefore r rs h.0, IsTimeline-of rs h.1)

-- Has this publication date, or none.
abbrev pub dated : Option Time → SearchResult → Bool
dated none r = not (is_some r.published_at)
dated (some t) r = elim r.published_at [ none ↦ false | some u ↦ u == t ]

dated_tie :
    (date : Option Time) (a b : SearchResult)
    → dated date a ≡ true
    → dated date b ≡ true
    → newest_first a b ≡ true
unfolding newest_first
dated_tie none a b h k = ground arith
dated_tie (some t) a b h k = ground arith

-- Sorting for the timeline keeps every result, puts newer before older and undated last, and
-- keeps the results of one date, and the undated ones, in the order in which they arrived.
pub timeline_lem :
    (results : List SearchResult)
    → Perm (sort_by_publication_date results) results
      × IsTimeline (sort_by_publication_date results)
      × ((date : Option Time)
          → filter (dated date) (sort_by_publication_date results) ≡ filter (dated date) results)
unfolding sort_by_publication_date
timeline_lem results = (
  sort_by-perm newest_first results,
  IsTimeline-of _ (sort_by-IsSorted newest_first newest_first_total newest_first_trans results),
  λ date. filter-sort_by newest_first (dated date) results (dated_tie date),
)
