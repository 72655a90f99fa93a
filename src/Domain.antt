-- ===== src/Domain.antt =====
-- backend/src/domain/mod.rs: what every entity shares. A `Uuid` is its 128-bit number. A
-- `DateTime<Utc>` is the number of nanoseconds since chrono's least date, so no date of a run is
-- negative and no subtraction of a retention or quota period passes below 0. `Uuid::new_v4()` and
-- `Utc::now()` are the environment's: the operations that call them take the values they return.
pub mod Job
pub mod Recurring
pub mod SearchResult
pub mod Channel
pub mod Document
pub mod RefreshToken
pub mod User
pub mod SecurityEvent
use ai_agent_boilerplate.Prelude.{ℕ, ◌*◌, ◌/◌}

abbrev pub Uuid : Type 0
Uuid = ℕ

abbrev pub Time : Type 0
Time = ℕ

abbrev pub micros : ℕ → ℕ
micros n = n * 1000

abbrev pub seconds : ℕ → ℕ
seconds n = n * 1_000_000_000

abbrev pub minutes : ℕ → ℕ
minutes n = n * 60_000_000_000

abbrev pub hours : ℕ → ℕ
hours n = n * 3_600_000_000_000

abbrev pub days : ℕ → ℕ
days n = n * 86_400_000_000_000

-- `now_utc`: the clock's value, truncated to microseconds.
unfoldable pub now_utc : Time → Time
now_utc now = micros (now / 1000)
