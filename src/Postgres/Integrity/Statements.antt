-- ===== src/Postgres/Integrity/Statements.antt =====
-- What statements, and several of them in a row or in a transaction, leave of the references.
use ai_agent_boilerplate.Prelude.{◌≡◌, refl, Bool, true, false, if◌then◌else◌}
use ai_agent_boilerplate.Text.{Text}
use ai_agent_boilerplate.Postgres.Tables.{Tables}
use ai_agent_boilerplate.Postgres.Server.{
  Answer, answered, refused, lost, Database, Statement, settle, execute, finish, begun, transaction,
  next_answer,
}
use ai_agent_boilerplate.Exec.{Result, ok, err, continue, ◌>>◌}
use ai_agent_boilerplate.Ports.{Port, PortError}
use ai_agent_boilerplate.Postgres.Integrity.{IsIntact}

-- What a statement that is carried out writes.
abbrev pub Leaves : {A : Type 0} → Result Text (A × Tables) → Type 0
Leaves (ok r) = IsIntact r.1
Leaves (err m) = Unit

abbrev pub Keeps : {A : Type 0} → Port Database A → Type 0
Keeps m = (db : Database) → IsIntact db.tables → IsIntact (m db).1.tables

module _ {A : Type 0} where
  pub refused_if :
      (b : Bool) (m : Text) (r : Result Text (A × Tables))
      → Leaves r
      → Leaves (if b then err m else r)
  refused_if true m r h = tt
  refused_if false m r h = h

  pub refused_unless :
      (b : Bool) (m : Text) (r : Result Text (A × Tables))
      → (b ≡ true → Leaves r)
      → Leaves (if b then r else err m)
  refused_unless true m r h = h refl
  refused_unless false m r h = tt

  settle-IsIntact :
      (w : Answer) (t : Tables) (r : Result Text (A × Tables))
      → IsIntact t
      → Leaves r
      → IsIntact (settle w t r).1
  settle-IsIntact answered t (ok r) v h = h
  settle-IsIntact answered t (err m) v h = v
  settle-IsIntact (refused m) t r v h = v
  settle-IsIntact (lost m) t (ok r) v h = h
  settle-IsIntact (lost m) t (err m') v h = v

  pub execute-Keeps :
      (st : Statement A) → ((t : Tables) → IsIntact t → Leaves (st t)) → Keeps (execute st)
  unfolding execute
  execute-Keeps st h db v =
      settle-IsIntact (next_answer db.answers) db.tables (st db.tables) v (h db.tables v)

  finish-IsIntact :
      (t : Tables) (r : Result PortError A) (db : Database)
      → IsIntact t
      → IsIntact db.tables
      → IsIntact (finish t r db).1.tables
  finish-IsIntact t (err e) db v w = v
  finish-IsIntact t (ok a) db v w =
      settle-IsIntact (next_answer db.answers) t (ok (a, db.tables)) v w

  begun-Keeps :
      (body : Port Database A) (r : Result PortError Unit) → Keeps body → Keeps (begun body r)
  begun-Keeps body (err e) h db v = v
  begun-Keeps body (ok u) h db v = finish-IsIntact db.tables (body db).0 (body db).1 v (h db v)

module _ {A : Type 0} where
  pub transaction-Keeps : (body : Port Database A) → Keeps body → Keeps (transaction body)
  unfolding transaction
  transaction-Keeps body h db v =
      let begin = λ (t : Tables). ok (tt, t) in
      begun-Keeps body (execute begin db).0 h (execute begin db).1
        (execute-Keeps begin (λ t w. w) db v)

module _ {A B : Type 0} where
  continue-Keeps :
      (r : Result PortError A) (f : A → Port Database B)
      → ((a : A) → Keeps (f a))
      → Keeps (continue r f)
  continue-Keeps (ok a) f h db v = h a db v
  continue-Keeps (err e) f h db v = v

  pub seq-Keeps : (m : Port Database A) (n : Port Database B) → Keeps m → Keeps n → Keeps (m >> n)
  seq-Keeps m n h k db v = continue-Keeps (m db).0 (λ _. n) (λ _. k) (m db).1 (h db v)
