-- ===== src/InMemory/Jobs/Memory.antt =====
-- The memory of a recurring search (ADR-033): the URLs that its runs delivered.
use ai_agent_boilerplate.Prelude.{
  ℕ, ◌%◌, ◌^◌, ◌≤◌, ◌<◌, ◌≡◌, refl, inl, inr, Bool, true, false, ◌&&◌, ◌||◌, List, [], ◌∷◌, ◌++◌,
  arith, leb, if◌then◌else◌, Bool-cases, length, any, All, length-append, All-append, All-map,
  filter_passes,
}
use ai_agent_boilerplate.Exec.{ok}
use ai_agent_boilerplate.Text.{Text, text_eq, text_eq_refl, text_eq_sym}
use ai_agent_boilerplate.Map.{Map, get, values}
use ai_agent_boilerplate.Sort.Laws.{All-sort_by}
use ai_agent_boilerplate.Domain.{Uuid}
use ai_agent_boilerplate.Domain.Job.{ResearchJob}
use ai_agent_boilerplate.Domain.SearchResult.{SearchResult}
use ai_agent_boilerplate.InMemory.Jobs.{
  InMemoryJobRepository, gather_run, gather_runs, or_empty, recent_urls_for_recurring, is_run_of,
  newest_job_first,
}

-- No URL twice.
abbrev pub IsDistinct : List Text → Type 0
IsDistinct [] = Unit
IsDistinct (u ∷ urls) = (any (text_eq u) urls ≡ false) × IsDistinct urls

any-append :
    (p : Text → Bool) (urls : List Text) (u : Text) → any p (urls ++ u ∷ []) ≡ (any p urls || p u)
any-append p [] u = ground arith
any-append p (v ∷ urls) u = ground (arith, any-append p urls u)

append-IsDistinct :
    (urls : List Text) (u : Text)
    → any (text_eq u) urls ≡ false
    → IsDistinct urls
    → IsDistinct (urls ++ u ∷ [])
append-IsDistinct [] u h d = (refl, tt)
append-IsDistinct (v ∷ urls) u h d = (
  ground (arith, any-append (text_eq v) urls u, text_eq_sym u v),
  append-IsDistinct urls u (ground arith) d.1,
)

-- The most URLs that a limit lets through: one is taken before the limit is looked at.
abbrev pub room : ℕ → ℕ
room limit = if leb limit 1 then 1 else limit

-- What holds of the URLs gathered so far, while the method has not returned.
record Gathering (P : Text → Type 0) (limit : ℕ) (urls : List Text) : Type 0 where
  distinct : IsDistinct urls
  fits : length urls < room limit
  known : All P urls

-- What holds when it has returned.
record Complete (P : Text → Type 0) (limit : ℕ) (urls : List Text) : Type 0 where
  distinct : IsDistinct urls
  fits : length urls ≤ room limit
  known : All P urls

abbrev After : (Text → Type 0) → ℕ → List Text → Bool → Type 0
After P limit urls true = Complete P limit urls
After P limit urls false = Gathering P limit urls

module _ (P : Text → Type 0) (limit : ℕ) (u32 : limit < 2 ^ 32) where
  gather_run-After :
      (rs : List SearchResult) (urls : List Text)
      → All (λ r. P r.url) rs
      → Gathering P limit urls
      → After P limit (gather_run limit rs urls).0 (gather_run limit rs urls).1
  unfolding gather_run
  gather_run-After [] urls h g = g
  gather_run-After (r ∷ rs) urls h g = elim (Bool-cases (any (text_eq r.url) urls)) [
    | inl seen ↦ rw seen (gather_run-After rs urls h.1 g)
    | inr fresh ↦ elim (Bool-cases (leb limit (length (urls ++ r.url ∷ []) % 2 ^ 32))) [
      | inl full ↦
          rw (fresh, full)
            (record {
              distinct = append-IsDistinct urls r.url fresh g.distinct;
              fits = ground (arith, length-append urls (r.url ∷ []), g.fits);
              known = All-append P urls (r.url ∷ []) g.known (h.0, tt);
            })
      | inr more ↦
          rw (fresh, more)
            (gather_run-After rs (urls ++ r.url ∷ []) h.1 (record {
              distinct = append-IsDistinct urls r.url fresh g.distinct;
              fits = ground (arith, length-append urls (r.url ∷ []), g.fits);
              known = All-append P urls (r.url ∷ []) g.known (h.0, tt);
            }))
    ]
  ]

  After-Complete : (urls : List Text) (b : Bool) → After P limit urls b → Complete P limit urls
  After-Complete urls true h = h
  After-Complete urls false h = record {
    distinct = h.distinct;
    fits = omega arith;
    known = h.known;
  }

  gather_runs-Complete :
      (results : Map (List SearchResult)) (jobs : List ResearchJob) (urls : List Text)
      → All (λ j. All (λ r. P r.url) (or_empty (get j.id results))) jobs
      → Gathering P limit urls
      → Complete P limit (gather_runs limit results jobs urls)
  unfolding gather_runs
  gather_runs-Complete results [] urls h g = After-Complete urls false g
  gather_runs-Complete results (j ∷ jobs) urls h g =
      elim (Bool-cases (gather_run limit (or_empty (get j.id results)) urls).1) [
        | inl stop ↦
            rw stop (rw stop at (gather_run-After (or_empty (get j.id results)) urls h.0 g))
        | inr go ↦ rw go (
            gather_runs-Complete results jobs _ h.1
              (rw go at (gather_run-After (or_empty (get j.id results)) urls h.0 g)))
      ]

-- `u` is the URL of a stored result of a run of the search, among these jobs.
abbrev pub delivered : Uuid → Map (List SearchResult) → List ResearchJob → Text → Bool
delivered search_id results jobs u =
    any (λ j. is_run_of search_id j && any (λ r. text_eq u r.url) (or_empty (get j.id results)))
      jobs

-- A result's URL is among the URLs of the list that it stands in.
listed : (rs : List SearchResult) → All (λ r. any (λ q. text_eq r.url q.url) rs ≡ true) rs
listed [] = tt
listed (r ∷ rs) = (
  ground (arith, text_eq_refl r.url),
  All-map (λ q. any (λ x. text_eq q.url x.url) rs ≡ true) _ (λ q h. ground arith) rs (listed rs),
)

delivered_runs :
    (search_id : Uuid) (results : Map (List SearchResult)) (jobs : List ResearchJob)
    → All
        (λ j.
          is_run_of search_id j ≡ true
          → All (λ r. delivered search_id results jobs r.url ≡ true) (or_empty (get j.id results)))
        jobs
delivered_runs search_id results [] = tt
delivered_runs search_id results (j ∷ jobs) = (
  λ run.
      All-map (λ r. any (λ q. text_eq r.url q.url) (or_empty (get j.id results)) ≡ true) _
        (λ r h. rw (run, h)) _ (listed (or_empty (get j.id results))),
  All-map _ _
      (λ k h run.
        All-map (λ r. delivered search_id results jobs r.url ≡ true) _ (λ r e. ground arith) _
          (h run))
      jobs (delivered_runs search_id results jobs),
)

-- For a limit below 2 ^ 32, reading the memory of a recurring search succeeds and changes
-- nothing, and returns no URL twice, only URLs that the search's runs delivered, and at most
-- limit of them (one, where the limit is 0).
pub recent_urls_lem :
    (search_id : Uuid) (limit : ℕ) (s : InMemoryJobRepository)
    → limit < 2 ^ 32
    → (urls : List Text) × (recent_urls_for_recurring search_id limit s ≡ (ok urls, s))
      × IsDistinct urls
      × (length urls ≤ room limit)
      × All (λ u. delivered search_id s.results (values s.jobs) u ≡ true) urls
unfolding recent_urls_for_recurring
recent_urls_lem search_id limit s u32 =
    let c =
      gather_runs-Complete (λ u. delivered search_id s.results (values s.jobs) u ≡ true) limit u32
        s.results _ []
        (All-sort_by newest_job_first _ _ (
          filter_passes _ (is_run_of search_id) (values s.jobs)
            (delivered_runs search_id s.results (values s.jobs))))
        (record { distinct = tt; fits = ground arith; known = tt }) in
    (_, refl, c.distinct, c.fits, c.known)
