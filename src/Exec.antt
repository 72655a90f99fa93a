-- ===== src/Exec.antt =====
-- Methods that change state and may fail: an async method that returns `Result<A, E>` and writes
-- to what it shares. What was written before an early return stays written, so the state comes
-- back beside an error too. `?` is the bind; where it converts the error (`#[from]`), the call
-- stands under `map_err`.
use ai_agent_boilerplate.Prelude.{◌≡◌, refl, ◌⊎◌, inl, inr, Option, none, some}

-- `Result<A, E>`.
pub data Result (E A : Type 0) : Type 0 where
  ok : A → Result E A
  err : E → Result E A

abbrev pub Exec : Type 0 → Type 0 → Type 0 → Type 0
Exec E S A = S → Result E A × S

module _ {E S : Type 0} where
  abbrev pub pure : {A : Type 0} → A → Exec E S A
  pure a s = (ok a, s)

  abbrev pub raise : {A : Type 0} → E → Exec E S A
  raise e s = (err e, s)

  abbrev pub from_result : {A : Type 0} → Result E A → Exec E S A
  from_result r s = (r, s)

  abbrev pub continue : {A B : Type 0} → Result E A → (A → Exec E S B) → S → Result E B × S
  continue (ok a) f s = f a s
  continue (err e) f s = (err e, s)

  infixl 10 ◌>>=◌ ◌>>◌
  abbrev pub ◌>>=◌ : {A B : Type 0} → Exec E S A → (A → Exec E S B) → Exec E S B
  ◌>>=◌ m f s = continue (m s).0 f (m s).1

  abbrev pub ◌>>◌ : {A B : Type 0} → Exec E S A → Exec E S B → Exec E S B
  m >> n = m >>= λ _. n

  -- `option.ok_or(e)?`
  abbrev pub ok_or : {A : Type 0} → E → Option A → Exec E S A
  ok_or e none = raise e
  ok_or e (some a) = pure a

abbrev pub convert : {E E' A : Type 0} → (E → E') → Result E A → Result E' A
convert f (ok a) = ok a
convert f (err e) = err (f e)

module _ {E E' S : Type 0} where
  -- The error conversion of `?`.
  abbrev pub map_err : {A : Type 0} → (E → E') → Exec E S A → Exec E' S A
  map_err f m s = (convert f (m s).0, (m s).1)

  -- `if let Err(e) = call.await`: the failure is a value, and the caller goes on.
  abbrev pub attempt : {A : Type 0} → Exec E S A → Exec E' S (Result E A)
  attempt m s = (ok (m s).0, (m s).1)

-- An operation on a part of the state.
abbrev pub zoom : {E S T A : Type 0} → (S → T) → (T → S → S) → Exec E T A → Exec E S A
zoom get put m s = ((m (get s)).0, put (m (get s)).1 s)

-- To split on a computed result and keep the equation.
pub Result-cases :
    {E A : Type 0} (r : Result E A) → ((a : A) × (r ≡ ok a)) ⊎ ((e : E) × (r ≡ err e))
Result-cases (ok a) = inl (a, refl)
Result-cases (err e) = inr (e, refl)
