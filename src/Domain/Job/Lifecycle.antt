-- ===== src/Domain/Job/Lifecycle.antt =====
-- The life of a job: what `new` accepts, the calls that the use cases make on a job, and the
-- invariant that holds between them.
use ai_agent_boilerplate.Prelude.{
  ℕ, ◌≤◌, ◌<◌, ◌≡◌, ◌↔◌, true, false, Option, none, some, List, [], ◌∷◌, arith, is_some, length,
}
use ai_agent_boilerplate.Exec.{ok, err}
use ai_agent_boilerplate.Text.{Text, trim, is_empty}
use ai_agent_boilerplate.Text.Trim.{trim_idem}
use ai_agent_boilerplate.Domain.{Uuid, Time, now_utc}
use ai_agent_boilerplate.Domain.Job.{
  fail, pending, awaiting_input, failed, JobMode, empty_keyword, keyword_too_long, ResearchJob,
  fresh_job, new, with_mode, start, complete, request_input, provide_answer, is_finished,
  max_keyword_len, max_answer_len,
}

-- What the use cases do to a stored job, whatever calls it and how often.
pub data JobEvent : Type 0 where
  started : JobEvent
  completed_at : Time → JobEvent
  failed_with : Text → Time → JobEvent
  asked answered : Text → JobEvent

unfoldable pub apply : JobEvent → ResearchJob → ResearchJob
unfolding start complete fail request_input provide_answer
apply started job = start job
apply (completed_at now) job = complete now job
apply (failed_with error now) job = fail error now job
apply (asked question) job = (request_input question job).1
apply (answered answer) job = (provide_answer answer job).1

unfoldable pub apply_all : List JobEvent → ResearchJob → ResearchJob
apply_all [] job = job
apply_all (e ∷ es) job = apply_all es (apply e job)

-- A text that `trim` leaves alone, is not empty and has at most `bound` characters.
pub record IsClean (bound : ℕ) (t : Text) : Type 0 where
  pub trimmed : trim t ≡ t
  pub nonempty : is_empty t ≡ false
  pub bounded : length t ≤ bound

-- The same of an optional text, with no bound on its length.
abbrev pub IsAsked : Option Text → Type 0
IsAsked none = Unit
IsAsked (some t) = (trim t ≡ t) × (is_empty t ≡ false)

abbrev pub IsAnswered : Option Text → Type 0
IsAnswered none = Unit
IsAnswered (some t) = IsClean max_answer_len t

pub record IsValid (j : ResearchJob) : Type 0 where
  pub keyword_clean : IsClean max_keyword_len j.keyword
  pub stamped : is_some j.completed_at ≡ is_finished j
  pub failed_has_reason : j.status ≡ failed → is_some j.error ≡ true
  pub reason_is_failed : is_some j.error ≡ true → j.status ≡ failed
  pub awaiting_has_question : j.status ≡ awaiting_input → is_some j.question ≡ true
  pub answer_has_question : is_some j.answer ≡ true → is_some j.question ≡ true
  pub question_clean : IsAsked j.question
  pub answer_clean : IsAnswered j.answer

module _ (id : Uuid) (now : Time) (user_id : Uuid) (keyword : Text) where
  -- New accepts a keyword exactly when, trimmed, it has 1 to 200 characters, and then the job is
  -- pending with the trimmed keyword; otherwise the error says which bound is broken.
  pub new_accepts :
      ((new id now user_id keyword ≡ ok (fresh_job id now user_id (trim keyword)))
        ↔ ((1 ≤ length (trim keyword)) × (length (trim keyword) ≤ max_keyword_len)))
      × ((new id now user_id keyword ≡ err empty_keyword) ↔ (length (trim keyword) ≡ 0))
      × ((new id now user_id keyword ≡ err keyword_too_long)
          ↔ (max_keyword_len < length (trim keyword)))
  unfolding new
  new_accepts = grind arith

  pub new-IsValid : {j : ResearchJob} → new id now user_id keyword ≡ ok j → IsValid j
  unfolding new is_finished
  new-IsValid e = ground (arith, trim_idem keyword)

-- Every call keeps the invariant, whether it takes effect, does nothing or returns an error.
pub apply-IsValid : (e : JobEvent) (j : ResearchJob) → IsValid j → IsValid (apply e j)
unfolding apply start is_finished
apply-IsValid started j h = ground arith
apply-IsValid (completed_at now) j h = ground arith
apply-IsValid (failed_with error now) j h = ground arith
apply-IsValid (asked question) j h = ground (arith, trim_idem question)
apply-IsValid (answered answer) j h = ground (arith, trim_idem answer)

apply_all-IsValid : (es : List JobEvent) (j : ResearchJob) → IsValid j → IsValid (apply_all es j)
unfolding apply_all
apply_all-IsValid [] j h = h
apply_all-IsValid (e ∷ es) j h = apply_all-IsValid es (apply e j) (apply-IsValid e j h)

-- From a job that new accepted, linked to a recurring search or not, every sequence of calls
-- leaves a valid job: its keyword stays clean, the completion time is set exactly on finished
-- jobs, an error text exactly on failed ones, and a waiting or answered job has its question.
pub lifecycle-IsValid :
    (id : Uuid) (now : Time) (user_id : Uuid) (keyword : Text) (mode : JobMode) (rs : Option Uuid)
    (es : List JobEvent) {j : ResearchJob}
    → new id now user_id keyword ≡ ok j
    → IsValid (apply_all es (record (with_mode mode j) { recurring_search_id = rs }))
unfolding with_mode is_finished
lifecycle-IsValid id now user_id keyword mode rs es {j} e =
    apply_all-IsValid es _ (ground (arith, new-IsValid id now user_id keyword e))

-- The fields of a new job that do not depend on its keyword.
pub record IsNew (id user_id : Uuid) (now : Time) (j : ResearchJob) : Type 0 where
  pub id_is : j.id ≡ id
  pub user_is : j.user_id ≡ user_id
  pub created_is : j.created_at ≡ now_utc now
  pub is_pending_now : j.status ≡ pending
  pub no_error : j.error ≡ none

pub new-IsNew :
    (id : Uuid) (now : Time) (user_id : Uuid) (keyword : Text) {j : ResearchJob}
    → new id now user_id keyword ≡ ok j
    → IsNew id user_id now j
unfolding new
new-IsNew id now user_id keyword e = ground arith

-- A clean keyword is accepted.
pub new_clean :
    (id : Uuid) (now : Time) (user_id : Uuid) (keyword : Text)
    → IsClean max_keyword_len keyword
    → (j : ResearchJob) × (new id now user_id keyword ≡ ok j)
unfolding new
new_clean id now user_id keyword h = (fresh_job id now user_id (trim keyword), ground (arith, h))

-- What a failure leaves alone.
pub fail_keeps :
    (error : Text) (now : Time) (j : ResearchJob)
    → ((fail error now j).id ≡ j.id)
      × ((fail error now j).user_id ≡ j.user_id)
      × ((fail error now j).created_at ≡ j.created_at)
      × ((fail error now j).usage ≡ j.usage)
unfolding fail
fail_keeps error now j = ground arith

-- No call changes whose job it is, or its spend.
pub apply_keeps :
    (e : JobEvent) (j : ResearchJob)
    → ((apply e j).id ≡ j.id) × ((apply e j).user_id ≡ j.user_id) × ((apply e j).usage ≡ j.usage)
unfolding apply
apply_keeps e j = ground arith
