-- ===== src/InMemory/Jobs/Journal.antt =====
-- The decision journal (ADR-030): ordered by `seq`, one entry for each, and safe under redelivery.
use ai_agent_boilerplate.Prelude.{
  ℕ, ◌≡◌, refl, sym, ◌∙◌, ◌≢◌, inl, inr, Bool, true, false, ◌||◌, List, [], ◌∷◌, ◌++◌, arith, ◌==◌,
  ==_iff, ==-refl, Bool-cases, any, All,
}
use ai_agent_boilerplate.Map.{get}
use ai_agent_boilerplate.Map.Laws.{get-insert}
use ai_agent_boilerplate.Sort.{insert_sorted, sort_by}
use ai_agent_boilerplate.Sort.Laws.{IsSorted, sort_by-IsSorted}
use ai_agent_boilerplate.Domain.{Uuid}
use ai_agent_boilerplate.Domain.Job.{AgentStep}
use ai_agent_boilerplate.InMemory.Jobs.{
  InMemoryJobRepository, by_seq, add_step, append_step, or_empty,
}

abbrev has_seq : ℕ → List AgentStep → Bool
has_seq n journal = any (λ s. s.seq == n) journal

-- No two entries have the same `seq`.
abbrev pub IsDistinct : List AgentStep → Type 0
IsDistinct [] = Unit
IsDistinct (s ∷ journal) = (has_seq s.seq journal ≡ false) × IsDistinct journal

pub record IsJournal (journal : List AgentStep) : Type 0 where
  pub ordered : IsSorted by_seq journal
  pub distinct : IsDistinct journal

by_seq_total : (a b : AgentStep) → by_seq a b ≡ false → by_seq b a ≡ true
by_seq_total a b h = ground arith

by_seq_trans : (a b c : AgentStep) → by_seq a b ≡ true → by_seq b c ≡ true → by_seq a c ≡ true
by_seq_trans a b c h k = ground arith

has_seq-insert_sorted :
    (n : ℕ) (x : AgentStep) (xs : List AgentStep)
    → has_seq n (insert_sorted by_seq x xs) ≡ ((x.seq == n) || has_seq n xs)
unfolding insert_sorted
has_seq-insert_sorted n x [] = refl
has_seq-insert_sorted n x (y ∷ ys) = ground (arith, has_seq-insert_sorted n x ys)

has_seq-sort_by : (n : ℕ) (xs : List AgentStep) → has_seq n (sort_by by_seq xs) ≡ has_seq n xs
unfolding sort_by
has_seq-sort_by n [] = refl
has_seq-sort_by n (x ∷ xs) =
    ground (arith, has_seq-insert_sorted n x (sort_by by_seq xs), has_seq-sort_by n xs)

has_seq-append :
    (n : ℕ) (xs : List AgentStep) (y : AgentStep)
    → has_seq n (xs ++ y ∷ []) ≡ (has_seq n xs || (y.seq == n))
has_seq-append n [] y = ground arith
has_seq-append n (x ∷ xs) y = ground (arith, has_seq-append n xs y)

insert_sorted-IsDistinct :
    (x : AgentStep) (xs : List AgentStep)
    → has_seq x.seq xs ≡ false
    → IsDistinct xs
    → IsDistinct (insert_sorted by_seq x xs)
unfolding insert_sorted
insert_sorted-IsDistinct x [] h d = (h, tt)
insert_sorted-IsDistinct x (y ∷ ys) h d = elim (Bool-cases (by_seq x y)) [
  | inl first ↦ rw first (h, d)
  | inr later ↦ rw later (
    ground (arith, has_seq-insert_sorted y.seq x ys, ==_iff x.seq y.seq, ==_iff y.seq x.seq),
    insert_sorted-IsDistinct x ys (ground arith) d.1,
  )
]

sort_by-IsDistinct : (xs : List AgentStep) → IsDistinct xs → IsDistinct (sort_by by_seq xs)
unfolding sort_by
sort_by-IsDistinct [] h = h
sort_by-IsDistinct (x ∷ xs) h =
    insert_sorted-IsDistinct x (sort_by by_seq xs) (ground (arith, has_seq-sort_by x.seq xs))
      (sort_by-IsDistinct xs h.1)

append-IsDistinct :
    (xs : List AgentStep) (y : AgentStep)
    → has_seq y.seq xs ≡ false
    → IsDistinct xs
    → IsDistinct (xs ++ y ∷ [])
append-IsDistinct [] y h d = (refl, tt)
append-IsDistinct (x ∷ xs) y h d =
    (ground (arith, has_seq-append x.seq xs y), append-IsDistinct xs y (ground arith) d.1)

pub add_step-IsJournal :
    (step : AgentStep) (journal : List AgentStep)
    → IsJournal journal
    → IsJournal (add_step step journal)
unfolding add_step
add_step-IsJournal step journal j = elim (Bool-cases (has_seq step.seq journal)) [
  | inl there ↦ rw there j
  | inr fresh ↦ rw fresh (record {
    ordered = sort_by-IsSorted by_seq by_seq_total by_seq_trans (journal ++ step ∷ []);
    distinct = sort_by-IsDistinct _ (append-IsDistinct journal step fresh j.distinct);
  })
]

has_seq-add_step :
    (step : AgentStep) (journal : List AgentStep) → has_seq step.seq (add_step step journal) ≡ true
unfolding add_step
has_seq-add_step step journal = ground (
  arith,
  has_seq-sort_by step.seq (journal ++ step ∷ []),
  has_seq-append step.seq journal step,
  ==-refl step.seq,
)

add_step_known :
    (step : AgentStep) (journal : List AgentStep)
    → has_seq step.seq journal ≡ true
    → add_step step journal ≡ journal
unfolding add_step
add_step_known step journal h = rw h

has_seq-add_step_keeps :
    (n : ℕ) (step : AgentStep) (journal : List AgentStep)
    → has_seq n journal ≡ true
    → has_seq n (add_step step journal) ≡ true
unfolding add_step
has_seq-add_step_keeps n step journal h =
    ground (arith, has_seq-sort_by n (journal ++ step ∷ []), has_seq-append n journal step)

deliver : List AgentStep → List AgentStep → List AgentStep
deliver [] journal = journal
deliver (x ∷ xs) journal = deliver xs (add_step x journal)

abbrev Holds : List AgentStep → List AgentStep → Type 0
Holds steps journal = All (λ s. has_seq s.seq journal ≡ true) steps

Holds-add_step :
    (steps : List AgentStep) (x : AgentStep) (journal : List AgentStep)
    → Holds steps journal
    → Holds steps (add_step x journal)
Holds-add_step [] x journal h = tt
Holds-add_step (s ∷ steps) x journal h =
    (has_seq-add_step_keeps s.seq x journal h.0, Holds-add_step steps x journal h.1)

has_seq-deliver :
    (n : ℕ) (steps : List AgentStep) (journal : List AgentStep)
    → has_seq n journal ≡ true
    → has_seq n (deliver steps journal) ≡ true
unfolding deliver
has_seq-deliver n [] journal h = h
has_seq-deliver n (x ∷ xs) journal h =
    has_seq-deliver n xs (add_step x journal) (has_seq-add_step_keeps n x journal h)

Holds-deliver :
    (steps : List AgentStep) (journal : List AgentStep) → Holds steps (deliver steps journal)
unfolding deliver
Holds-deliver [] journal = tt
Holds-deliver (x ∷ xs) journal = (
  has_seq-deliver x.seq xs (add_step x journal) (has_seq-add_step x journal),
  Holds-deliver xs (add_step x journal),
)

deliver_known :
    (steps : List AgentStep) (journal : List AgentStep)
    → Holds steps journal
    → deliver steps journal ≡ journal
unfolding deliver
deliver_known [] journal h = refl
deliver_known (x ∷ xs) journal h = rw (add_step_known x journal h.0) (deliver_known xs journal h.1)

deliver-append :
    (xs ys : List AgentStep) (journal : List AgentStep)
    → deliver (xs ++ ys) journal ≡ deliver ys (deliver xs journal)
unfolding deliver
deliver-append [] ys journal = refl
deliver-append (x ∷ xs) ys journal = deliver-append xs ys (add_step x journal)

deliver-IsJournal :
    (steps journal : List AgentStep) → IsJournal journal → IsJournal (deliver steps journal)
unfolding deliver
deliver-IsJournal [] journal h = h
deliver-IsJournal (x ∷ xs) journal h =
    deliver-IsJournal xs (add_step x journal) (add_step-IsJournal x journal h)

-- The journal that the store holds for a job.
abbrev pub journal_of : Uuid → InMemoryJobRepository → List AgentStep
journal_of id s = or_empty (get id s.steps)

-- `append_step` for each step of a list, as a worker sends them.
unfoldable pub append_all : Uuid → List AgentStep → InMemoryJobRepository → InMemoryJobRepository
append_all id [] s = s
append_all id (x ∷ xs) s = append_all id xs (append_step id x s).1

append_all-deliver :
    (id : Uuid) (steps : List AgentStep) (s : InMemoryJobRepository)
    → journal_of id (append_all id steps s) ≡ deliver steps (journal_of id s)
unfolding append_all append_step deliver
append_all-deliver id [] s = refl
append_all-deliver id (x ∷ xs) s =
    append_all-deliver id xs (append_step id x s).1
    ∙ rw (get-insert id id (add_step x (or_empty (get id s.steps))) s.steps) (rw (==-refl id))

-- The other jobs' journals are untouched.
pub append_all_ne :
    (id other : Uuid) (steps : List AgentStep) (s : InMemoryJobRepository)
    → id ≢ other
    → get other (append_all id steps s).steps ≡ get other s.steps
unfolding append_all append_step
append_all_ne id other [] s h = refl
append_all_ne id other (x ∷ xs) s h =
    append_all_ne id other xs (append_step id x s).1 h
    ∙ ground (arith, get-insert id other (add_step x (or_empty (get id s.steps))) s.steps)

-- Where a job's journal is ordered by seq with one entry for each, delivering a list of steps
-- twice leaves the journal that delivering it once leaves, and that journal is still ordered
-- with one entry for each seq.
pub redelivered-IsJournal :
    (id : Uuid) (steps : List AgentStep) (s : InMemoryJobRepository)
    → IsJournal (journal_of id s)
    → (journal_of id (append_all id (steps ++ steps) s) ≡ journal_of id (append_all id steps s))
      × IsJournal (journal_of id (append_all id steps s))
redelivered-IsJournal id steps s j = (
  append_all-deliver id (steps ++ steps) s
      ∙ deliver-append steps steps (journal_of id s)
      ∙ deliver_known steps _ (Holds-deliver steps (journal_of id s))
      ∙ sym (append_all-deliver id steps s),
  rw (append_all-deliver id steps s) (deliver-IsJournal steps (journal_of id s) j),
)
