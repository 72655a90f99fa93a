-- ===== src/RateLimit/Shared.antt =====
-- The limiter that replicas share: one counter on a Redis server for each scope, client and window.
-- `open` is whether the client accepts a URL, and `count` the connection and the pipeline of `INCR`
-- and `EXPIRE` on a bucket, which return the counter.
pub mod Admits
use ai_agent_boilerplate.Prelude.{ℕ, ◌+◌, ◌/◌, Bool, true, Option, none, some, ◌++◌, leb}
use ai_agent_boilerplate.Text.{Text, codes}
use ai_agent_boilerplate.Text.Decimal.{decimal}
use ai_agent_boilerplate.Exec.{Exec, Result, ok, err}
use ai_agent_boilerplate.RateLimit
use ai_agent_boilerplate.RateLimit.{FixedWindowLimiter}

pub record RedisWindowLimiter : Type 0 where
  pub max_per_window : ℕ
  pub window_secs : ℕ
  pub scope : Text

abbrev pub redis_per_minute : ℕ → Text → RedisWindowLimiter
redis_per_minute limit scope = record { max_per_window = limit; window_secs = 60; scope = scope }

pub data Limiter : Type 0 where
  in_memory : FixedWindowLimiter → Limiter
  redis : RedisWindowLimiter → Limiter

abbrev pub opened : ℕ → Text → Result Text Unit → Limiter
opened limit scope (ok _) = redis (redis_per_minute limit scope)
opened limit scope (err e) = in_memory (RateLimit.per_minute limit)

-- `Limiter::per_minute`: in memory without a URL, or where the URL is refused.
unfoldable pub limiter_per_minute : (Text → Result Text Unit) → ℕ → Text → Option Text → Limiter
limiter_per_minute open_client limit scope none = in_memory (RateLimit.per_minute limit)
limiter_per_minute open_client limit scope (some url) = opened limit scope (open_client url)

unfoldable pub bucket : Text → Text → ℕ → Text
bucket scope key window_index =
    codes "rl:" ++ (scope ++ (codes ":" ++ (key ++ (codes ":" ++ decimal window_index))))

module _ {S : Type 0} (count : Text → ℕ → Exec Text S ℕ) where
  -- An unreachable server lets the request through.
  abbrev pub allowed : ℕ → Result Text ℕ → Bool
  allowed limit (ok n) = leb n limit
  allowed limit (err e) = true

  -- `now` is in seconds since the epoch.
  unfoldable pub redis_allow : RedisWindowLimiter → Text → ℕ → S → Bool × S
  redis_allow limiter key now s =
      let counted =
        count (bucket limiter.scope key (now / limiter.window_secs)) (limiter.window_secs + 1) s in
      (allowed limiter.max_per_window counted.0, counted.1)
