-- ===== src/RateLimit.antt =====
-- backend/src/adapters/http/rate_limit.rs: the in-memory fixed-window limiter. An `Instant` is a
-- number of nanoseconds, and `duration_since` of a later one is zero, as subtraction is here.
pub mod Window
pub mod Shared
mod Examples
use ai_agent_boilerplate.Prelude.{
  ℕ, ◌+◌, ◌-◌, ◌%◌, ◌^◌, Bool, Option, none, some, List, [], ◌∷◌, ltb, leb, if◌then◌else◌,
}
use ai_agent_boilerplate.Domain.{seconds}
use ai_agent_boilerplate.Text.{Text, text_eq}

-- The window that a client opened: when, and how many hits it has seen.
pub record Hits : Type 0 where
  pub start : ℕ
  pub count : ℕ

-- `HashMap<String, (Instant, u32)>`, in the order of its iteration.
abbrev pub Table : Type 0
Table = List (Text × Hits)

unfoldable pub find_hits : Text → Table → Option Hits
find_hits key [] = none
find_hits key ((k, h) ∷ table) = if text_eq k key then some h else find_hits key table

unfoldable pub put_hits : Text → Hits → Table → Table
put_hits key v [] = (key, v) ∷ []
put_hits key v ((k, h) ∷ table) =
    if text_eq k key then (key, v) ∷ table else (k, h) ∷ put_hits key v table

pub record FixedWindowLimiter : Type 0 where
  pub max_per_window : ℕ
  pub window : ℕ

abbrev pub per_minute : ℕ → FixedWindowLimiter
per_minute max_hits = record { max_per_window = max_hits; window = seconds 60 }

-- The entry is younger than the window.
abbrev pub is_live : FixedWindowLimiter → ℕ → Hits → Bool
is_live limiter now h = ltb (now - h.start) limiter.window

-- `hits.retain(..)`
unfoldable pub housekeep : FixedWindowLimiter → ℕ → Table → Table
housekeep limiter now [] = []
housekeep limiter now ((k, h) ∷ table) =
    let rest = housekeep limiter now table in if is_live limiter now h then (k, h) ∷ rest else rest

-- `entry(key).or_insert((now, 0))`, and the reset of a window that is over.
abbrev pub current : FixedWindowLimiter → ℕ → Option Hits → Hits
current limiter now none = record { start = now; count = 0 }
current limiter now (some h) =
    if leb limiter.window (now - h.start) then record { start = now; count = 0 } else h

-- `*count += 1` on a `u32`, which wraps in a release build.
abbrev pub hit : Hits → Hits
hit h = record h { count = (h.count + 1) % 2 ^ 32 }

unfoldable pub allow_at : FixedWindowLimiter → Text → ℕ → Table → Bool × Table
allow_at limiter key now table =
    let kept = housekeep limiter now table in
    let h = hit (current limiter now (find_hits key kept)) in
    (leb h.count limiter.max_per_window, put_hits key h kept)
