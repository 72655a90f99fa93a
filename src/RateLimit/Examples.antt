-- ===== src/RateLimit/Examples.antt =====
-- A client's three requests, and another's, against a limit of two.
use ai_agent_boilerplate.Prelude.{ℕ, suc, ◌≡◌, refl, List, [], ◌∷◌, arith, if◌then◌else◌}
use ai_agent_boilerplate.Text.{Text, codes, text_eq, text_eq_refl}
use ai_agent_boilerplate.Exec.{Exec, ok}
use ai_agent_boilerplate.RateLimit.Shared.{RedisWindowLimiter, redis_per_minute}
use ai_agent_boilerplate.RateLimit.Shared.Admits.{shared_through, shared_admits}
use ai_agent_boilerplate.RateLimit.{FixedWindowLimiter, per_minute, find_hits, housekeep}
use ai_agent_boilerplate.RateLimit.Window.{Requests, let_through, requests_of, window_admits}

abbrev limiter : FixedWindowLimiter
limiter = per_minute 2

abbrev requests : Requests
requests = (codes "b", 6) ∷ (codes "a", 7) ∷ (codes "a", 8) ∷ []

window_admits_example : let_through limiter (codes "a") ((codes "a", 5) ∷ requests) [] ≡ 2
unfolding find_hits housekeep requests_of text_eq
window_admits_example =
    window_admits limiter (codes "a") 5 requests [] refl
      (omega arith, (omega arith, (omega arith, tt))) (omega arith)

-- A server's state is the buckets that it has counted.
abbrev seen : Text → List Text → ℕ
seen b [] = 0
seen b (c ∷ buckets) = if text_eq c b then suc (seen b buckets) else seen b buckets

abbrev serve : Text → ℕ → Exec Text (List Text) ℕ
serve b expiry buckets = (ok (suc (seen b buckets)), b ∷ buckets)

abbrev shared : RedisWindowLimiter
shared = redis_per_minute 2 (codes "auth")

shared_admits_example :
    shared_through serve shared (codes "a") ((codes "a", 61) ∷ (codes "b", 62) ∷ []) [] ≡ 1
unfolding requests_of text_eq
shared_admits_example =
    shared_admits serve shared seen (λ b expiry s h. refl) (λ b expiry s. rw (text_eq_refl b))
      (λ b other expiry s h. rw h) (codes "a") 1 ((codes "a", 61) ∷ (codes "b", 62) ∷ []) []
      (refl, (refl, tt)) refl (omega arith)
