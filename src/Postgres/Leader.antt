-- ===== src/Postgres/Leader.antt =====
-- `PostgresLeaderLock`: which replica runs the background loop. PostgreSQL keeps an advisory lock
-- for a session until that unlocks it as often as it took it, or ends.
pub mod Cluster
pub mod Exclusion
pub mod Progress
use ai_agent_boilerplate.Prelude.{
  ℕ, ◌+◌, ◌-◌, Bool, true, false, not, Option, none, some, leb, ◌==◌, if◌then◌else◌,
}
use ai_agent_boilerplate.Postgres.Server.{Answer, answered, refused, lost}

-- A connection of some replica's pool.
abbrev pub Session : Type 0
Session = ℕ

-- The session that has the lock on the key, and how often it took it.
pub record Hold : Type 0 where
  pub session : Session
  pub taken : ℕ

-- `pg_try_advisory_lock($1)`
unfoldable pub try_lock : Session → Option Hold → Bool × Option Hold
try_lock c none = (true, some (record { session = c; taken = 1 }))
try_lock c (some h) =
    if h.session == c then (true, some (record h { taken = h.taken + 1 })) else (false, some h)

-- `pg_advisory_unlock($1)`
unfoldable pub unlock : Session → Option Hold → Option Hold
unlock c none = none
unlock c (some h) =
    if not (h.session == c)
    then some h
    else if leb h.taken 1
    then none
    else some (record h { taken = h.taken - 1 })

-- The lock on the server, and the connection that this replica holds it by, if it believes so.
pub record LockState : Type 0 where
  pub lock : Option Hold
  pub held : Option Session

abbrev pub granted : Session → Bool → LockState → LockState
granted c true s = record s { held = some c }
granted c false s = s

-- What the server makes of `pg_try_advisory_lock` on the connection `c`, by its answer.
abbrev pub attempted : Session → Answer → LockState → Bool × LockState
attempted c answered s = let r = try_lock c s.lock in (r.0, granted c r.0 (record s { lock = r.1 }))
attempted c (refused m) s = (false, s)
attempted c (lost m) s = (false, record s { lock = (try_lock c s.lock).1 })

-- `acquire`, with the connection that the pool gives, if any; a failed query counts as `false`.
unfoldable pub acquire : Option Session → Answer → LockState → Bool × LockState
unfolding try_lock
acquire none a s = (false, s)
acquire (some c) a s = attempted c a s

abbrev pub unlocked : Session → Answer → Option Hold → Option Hold
unlocked c (refused m) lock = lock
unlocked c _ lock = unlock c lock

abbrev pub let_go : Option Session → Answer → LockState → LockState
let_go none a s = s
let_go (some c) a s = record { lock = unlocked c a s.lock; held = none }

-- `release`: the connection goes back to the pool also where the query fails.
unfoldable pub release : Answer → LockState → LockState
unfolding unlock
release a s = let_go s.held a s
