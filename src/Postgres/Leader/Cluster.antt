-- ===== src/Postgres/Leader/Cluster.antt =====
-- Replicas that contend for the lock, in any interleaving of their calls.
use ai_agent_boilerplate.Prelude.{ℕ, ◌≡◌, ◌≢◌, Option, none, some, ◌==◌, if◌then◌else◌}
use ai_agent_boilerplate.Postgres.Server.{Answer}
use ai_agent_boilerplate.Postgres.Leader.{Session, Hold, LockState, acquire, release}

-- The lock of the server, and what each replica believes to hold it by.
pub record Cluster : Type 0 where
  pub lock : Option Hold
  pub held : ℕ → Option Session

abbrev pub put : ℕ → Option Session → (ℕ → Option Session) → ℕ → Option Session
put i v held j = if j == i then v else held j

abbrev pub view : ℕ → Cluster → LockState
view i s = record { lock = s.lock; held = s.held i }

abbrev pub stored : ℕ → LockState → Cluster → Cluster
stored i l s = record { lock = l.lock; held = put i l.held s.held }

-- The server ends the sessions of a process that dies.
abbrev pub without_owner : (Session → ℕ) → ℕ → Option Hold → Option Hold
without_owner owner i none = none
without_owner owner i (some h) = if owner h.session == i then none else some h

-- `owner` tells the replica whose pool a connection is of, and `May` which answers the server may
-- give. The pool does not give a connection that is out.
pub data Step (owner : Session → ℕ) (May : Answer → Type 0) (s : Cluster) : Cluster → Type 0 where
  acquires :
      (i : ℕ) (c : Session) (a : Answer)
      → May a
      → owner c ≡ i
      → s.held i ≢ some c
      → Step owner May s (stored i (acquire (some c) a (view i s)).1 s)
  no_connection : (i : ℕ) (a : Answer) → Step owner May s (stored i (acquire none a (view i s)).1 s)
  releases : (i : ℕ) (a : Answer) → May a → Step owner May s (stored i (release a (view i s)) s)
  dies :
      (i : ℕ)
      → Step owner May s (record { lock = without_owner owner i s.lock; held = put i none s.held })

abbrev pub idle : Cluster
idle = record { lock = none; held = λ _. none }

pub data Reach (owner : Session → ℕ) (May : Answer → Type 0) : Cluster → Type 0 where
  start : Reach owner May idle
  next : {s t : Cluster} → Reach owner May s → Step owner May s t → Reach owner May t
