-- ===== src/Background/Examples.antt =====
-- A leader's tick over the small store.
use ai_agent_boilerplate.Prelude.{ℕ, ◌+◌, Bool, true}
use ai_agent_boilerplate.Text.{Text}
use ai_agent_boilerplate.Exec.{Result, ok}
use ai_agent_boilerplate.Domain.{days}
use ai_agent_boilerplate.Application.Fixtures.{noon, draws}
use ai_agent_boilerplate.Background.{Settings, TickDraw}

abbrev settings : Settings
settings = record {
  job_timeout_minutes = 15;
  daily_search_quota = 20;
  data_retention_days = 0;
  security_retention_days = 90;
}

-- Two days later: the stored token has expired.
abbrev moment : TickDraw
moment = record {
  reaper_clock = noon + days 2;
  reaped_at = λ n. noon + days 2;
  scheduler_clock = noon + days 2;
  draws = draws;
  purge_clock = noon + days 2;
  data_clock = noon + days 2;
  security_clock = noon + days 2;
}

abbrev leads : ℕ → Bool × ℕ
leads n = (true, n)

abbrev from_std : ℕ → Result Text ℕ
from_std d = ok d
