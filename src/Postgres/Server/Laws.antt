-- ===== src/Postgres/Server/Laws.antt =====
-- What a statement and a transaction leave behind, whatever becomes of their answers.
use mathlib.Core.Path.{subst}
use ai_agent_boilerplate.Prelude.{◌≡◌, refl, ap, ◌⊎◌, inl, inr}
use ai_agent_boilerplate.Exec.{Result, ok, err}
use ai_agent_boilerplate.Ports.{PortError, Port}
use ai_agent_boilerplate.Text.{Text}
use ai_agent_boilerplate.Postgres.Tables.{Tables}
use ai_agent_boilerplate.Postgres.Server.{
  Answer, answered, refused, lost, Database, Statement, execute, transaction, settle, finish, begun,
  next_answer, later_answers, write,
}

-- To split on a result and keep the equation, at any value of it.
module _ {A : Type 0} where
  -- A statement that succeeds was carried out.
  pub settle_ok :
      (w : Answer) (t : Tables) (r : Result Text (A × Tables)) (a : A)
      → (settle w t r).0 ≡ ok a
      → r ≡ ok (a, (settle w t r).1)
  settle_ok answered t (ok (b, t')) a h = cc
  settle_ok answered t (err m) a h = cc
  settle_ok (refused m) t r a h = cc
  settle_ok (lost m) t (ok (b, t')) a h = cc
  settle_ok (lost m) t (err m') a h = cc

  pub execute_ok :
      (st : Statement A) (db : Database) (a : A)
      → (execute st db).0 ≡ ok a
      → st db.tables ≡ ok (a, (execute st db).1.tables)
  unfolding execute
  execute_ok st db a h = settle_ok (next_answer db.answers) db.tables (st db.tables) a h

  -- What a read returns depends on what it reads alone.
  pub query_value :
      (w : Answer) (t t' : Tables) {a b : A}
      → a ≡ b
      → (settle w t (ok (a, t))).0 ≡ (settle w t' (ok (b, t'))).0
  query_value answered t t' e = ap ok e
  query_value (refused m) t t' e = refl
  query_value (lost m) t t' e = refl

  -- One that fails was carried out or changed nothing.
  settle_either :
      (w : Answer) (t t' : Tables) (a : A)
      → ((settle w t (ok (a, t'))).1 ≡ t) ⊎ ((settle w t (ok (a, t'))).1 ≡ t')
  settle_either answered t t' a = inr refl
  settle_either (refused m) t t' a = inl refl
  settle_either (lost m) t t' a = inr refl

  -- Whole or not at all: `kept` or `after`, and `after` where it succeeds.
  abbrev pub IsAtomic : Tables → Tables → Result PortError A × Database → Type 0
  IsAtomic kept after out =
      ((out.1.tables ≡ kept) ⊎ (out.1.tables ≡ after))
      × ((a : A) → out.0 ≡ ok a → out.1.tables ≡ after)

  finish-IsAtomic :
      (kept after : Tables) (r : Result PortError A) (db : Database)
      → ((a : A) → r ≡ ok a → db.tables ≡ after)
      → IsAtomic kept after (finish kept r db)
  finish-IsAtomic kept after (err e) db h = (inl refl, λ a e'. cc)
  finish-IsAtomic kept after (ok a) db h = rw (← h a refl) (
    settle_either (next_answer db.answers) kept db.tables a,
    λ b e. cc (settle_ok (next_answer db.answers) kept (ok (a, db.tables)) b e),
  )

-- A write that succeeds is there.
pub write_ok :
    (f : Tables → Tables) (db : Database) (u : Unit {0})
    → (execute (write f) db).0 ≡ ok u
    → (execute (write f) db).1.tables ≡ f db.tables
write_ok f db u h = cc (execute_ok (write f) db u h)

begin_tables : (w : Answer) (t : Tables) → (settle w t (ok (tt {0}, t))).1 ≡ t
begin_tables answered t = refl
begin_tables (refused m) t = refl
begin_tables (lost m) t = refl

module _ {A : Type 0} where
  begun-IsAtomic :
      (body : Port Database A) (kept after : Tables) (r : Result PortError Unit) (d : Database)
      → d.tables ≡ kept
      → ((d : Database) (a : A) → d.tables ≡ kept → (body d).0 ≡ ok a → (body d).1.tables ≡ after)
      → IsAtomic kept after (begun body r d)
  begun-IsAtomic body kept after (err e) d same h = (inl same, λ a e'. cc)
  begun-IsAtomic body kept after (ok u) d same h =
      subst (λ t. IsAtomic t after (finish d.tables (body d).0 (body d).1)) same
        (finish-IsAtomic d.tables after (body d).0 (body d).1 (λ a e. h d a same e))

  -- A transaction leaves the tables as they were or as its body makes them.
  pub transaction-IsAtomic :
      (body : Port Database A) (db : Database) (after : Tables)
      → ((d : Database) (a : A)
          → d.tables ≡ db.tables
          → (body d).0 ≡ ok a
          → (body d).1.tables ≡ after)
      → IsAtomic db.tables after (transaction body db)
  unfolding transaction execute
  transaction-IsAtomic body db after h =
      let b = settle (next_answer db.answers) db.tables (ok (tt {0}, db.tables)) in
      begun-IsAtomic body db.tables after b.0
        (record { tables = b.1; answers = later_answers db.answers })
        (begin_tables (next_answer db.answers) db.tables) h
