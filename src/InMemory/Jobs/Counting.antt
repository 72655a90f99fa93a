-- ===== src/InMemory/Jobs/Counting.antt =====
-- How writes change the number of stored jobs that pass a test: the input of the quota.
use ai_agent_boilerplate.Prelude.{
  ℕ, ◌+◌, ◌≤◌, ◌<◌, max, ◌≡◌, refl, ap, Bool, Option, none, some, [], ◌∷◌, arith, if◌then◌else◌,
  ==_iff, length, filter,
}
use ai_agent_boilerplate.Text.{Text}
use ai_agent_boilerplate.Domain.Job.{fail}
use ai_agent_boilerplate.Domain.Job.Lifecycle.{fail_keeps}
use ai_agent_boilerplate.Map.{Map, get, insert, values}
use ai_agent_boilerplate.Domain.{Uuid, Time}
use ai_agent_boilerplate.Domain.Job.{ResearchJob}
use ai_agent_boilerplate.InMemory.Jobs.{created_since, keep_usage}

-- The number of values that pass `p`.
pub count_where : {V : Type 0} → (V → Bool) → Map V → ℕ
count_where p m = length (filter p (values m))

pub count_where_lem :
    {V : Type 0} (p : V → Bool) (m : Map V) → count_where p m ≡ length (filter p (values m))
unfolding count_where
count_where_lem p m = refl

module _ {V : Type 0} (p : V → Bool) (k : ℕ) (v : V) where
  pub count-insert :
      (m : Map V) → count_where p (insert k v m) ≤ count_where p m + (if p v then 1 else 0)
  unfolding count_where insert values
  count-insert [] = ground arith
  count-insert ((j, w) ∷ m) = ground (arith, count-insert m)

  -- A value that is replaced by one that passes the same test does not change the number.
  pub count-insert_same :
      (old : V) (m : Map V)
      → get k m ≡ some old
      → p v ≡ p old
      → count_where p (insert k v m) ≡ count_where p m
  unfolding count_where insert values get
  count-insert_same old [] h e = ground arith
  count-insert_same old ((j, w) ∷ m) h e = ground (arith, count-insert_same old m)

keep_usage_counts :
    (u : Uuid) (since : Time) (j : ResearchJob) (o : Option ResearchJob)
    → created_since u since (keep_usage j o) ≡ created_since u since j
keep_usage_counts u since j none = refl
keep_usage_counts u since j (some k) = refl

-- `update` with a failed version of a stored job counts as the job did.
pub failed_counts :
    (u : Uuid) (since : Time) (error : Text) (now : Time) (job : ResearchJob) (m : Map ResearchJob)
    → get job.id m ≡ some job
    → let lost = fail error now job in
      count_where (created_since u since) (insert lost.id (keep_usage lost (get lost.id m)) m)
      ≡ count_where (created_since u since) m
failed_counts u since error now job m h =
    let lost : ResearchJob = fail error now job in
    let k = fail_keeps error now job in
    count-insert_same (created_since u since) lost.id (keep_usage lost (get lost.id m)) job m
      (rw k.0 h) (rw keep_usage_counts (cc (k.1, k.2)))

-- A new job of a user who is below the quota takes no user past it.
pub insert_within_quota :
    (quota : ℕ) (u user_id : Uuid) (since : Time) (job : ResearchJob) (m : Map ResearchJob)
    → job.user_id ≡ user_id
    → count_where (created_since user_id since) m < quota
    → count_where (created_since u since) (insert job.id job m)
      ≤ max quota (count_where (created_since u since) m)
insert_within_quota quota u user_id since job m same below = ground (
  arith,
  count-insert (created_since u since) job.id job m,
  ==_iff user_id u,
  ap (λ v. count_where (created_since v since) m) {x = user_id} {y = u},
)
