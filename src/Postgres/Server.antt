-- ===== src/Postgres/Server.antt =====
-- One statement after another on a connection of the pool, and transactions. Any statement may
-- fail: the server refuses it and nothing is written, or it is carried out and its answer is lost.
pub mod Laws
pub mod Scans
use ai_agent_boilerplate.Prelude.{ℕ, Bool, Option, List, [], ◌∷◌, ◌++◌}
use ai_agent_boilerplate.Exec.{Result, ok, err}
use ai_agent_boilerplate.Text.{Text, codes}
use ai_agent_boilerplate.Domain.{Time}
use ai_agent_boilerplate.Ports.{Port, PortError, port_error}
use ai_agent_boilerplate.Postgres.Tables.{Tables, ChunkRow}

-- What PostgreSQL and its driver decide: the order in which a query meets the rows that it returns,
-- which nothing is promised of but what `ORDER BY` says; the instant that a bound time is stored as, the order of
-- texts, sums of `DOUBLE PRECISION` (`none` out of range), the chunks that the approximate index
-- finds near an embedding up to a limit, and the messages for what a constraint or a range forbids.
pub record Server : Type 1 where
  pub scan : {R : Type 0} → Tables → List R → List R
  pub timestamp : Time → Time
  pub text_le : Text → Text → Bool
  pub add_f64 : ℕ → ℕ → Option ℕ
  pub nearest : List ℕ → ℕ → List ChunkRow → List ChunkRow
  pub unique_violation : Text
  pub foreign_key_violation : Text
  pub check_violation : Text
  pub out_of_range : Text
  pub dimension_mismatch : Text

-- What becomes of one statement.
pub data Answer : Type 0 where
  answered : Answer
  refused : Text → Answer
  lost : Text → Answer

-- The tables, and what will become of the next statements; after those, all are answered.
pub record Database : Type 0 where
  pub tables : Tables
  pub answers : List Answer

-- `db_err`
unfoldable pub db_err : Text → PortError
db_err e = port_error (codes "database error: " ++ e)

abbrev pub Statement : Type 0 → Type 0
Statement A = Tables → Result Text (A × Tables)

abbrev pub next_answer : List Answer → Answer
next_answer [] = answered
next_answer (a ∷ rest) = a

abbrev pub later_answers : List Answer → List Answer
later_answers [] = []
later_answers (a ∷ rest) = rest

module _ {A : Type 0} where
  -- What the client is told, and what the tables are afterwards.
  abbrev pub settle : Answer → Tables → Result Text (A × Tables) → Result PortError A × Tables
  settle answered t (ok (a, t')) = (ok a, t')
  settle answered t (err m) = (err (db_err m), t)
  settle (refused m) t r = (err (db_err m), t)
  settle (lost m) t (ok (a, t')) = (err (db_err m), t')
  settle (lost m) t (err m') = (err (db_err m), t)

  abbrev pub settled :
      Answer → List Answer → Tables → Result Text (A × Tables) → Result PortError A × Database
  settled a rest t r = let s = settle a t r in (s.0, record { tables = s.1; answers = rest })

  -- `query(…).bind(…).execute(…).await.map_err(db_err)`, and the `fetch` methods.
  unfoldable pub execute : Statement A → Port Database A
  execute st db =
      settled (next_answer db.answers) (later_answers db.answers) db.tables (st db.tables)

  -- The end of a transaction: a failed one is dropped, which rolls it back; the last statement of
  -- another is its `COMMIT`.
  abbrev pub finish : Tables → Result PortError A → Database → Result PortError A × Database
  finish t (err e) db = (err e, record db { tables = t })
  finish t (ok a) db =
      settled (next_answer db.answers) (later_answers db.answers) t (ok (a, db.tables))

module _ {A : Type 0} where
  abbrev pub begun : Port Database A → Result PortError Unit → Port Database A
  begun body (err e) db = (err e, db)
  begun body (ok _) db = finish db.tables (body db).0 (body db).1

  -- `pool.begin()`, the statements of the body, `tx.commit()`.
  unfoldable pub transaction : Port Database A → Port Database A
  unfolding execute
  transaction body db = let b = execute (λ t. ok (tt, t)) db in begun body b.0 b.1

-- A read leaves the tables alone.
abbrev pub query : {A : Type 0} → (Tables → A) → Statement A
query f t = ok (f t, t)

-- A write that no constraint can refuse.
abbrev pub write : (Tables → Tables) → Statement Unit
write f t = ok (tt, f t)

-- A row that decodes to an error fails the read.
abbrev pub decoded : {A : Type 0} → Result PortError A → Port Database A
decoded r db = (r, db)
