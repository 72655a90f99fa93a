-- ===== src/Map/Unique.antt =====
-- A map holds one entry for each key, and every operation keeps that.
use ai_agent_boilerplate.Prelude.{
  ℕ, ◌≡◌, refl, inl, inr, Bool, Option, none, some, [], ◌∷◌, arith, ◌==◌, if◌then◌else◌, ==_iff,
  Bool-cases,
}
use ai_agent_boilerplate.Map.{Map, get, insert, remove, modify, retain}
use ai_agent_boilerplate.Map.Laws.{get-insert, get-remove, get-modify}

module _ {V : Type 0} where
  abbrev pub IsUnique : Map V → Type 0
  IsUnique [] = Unit
  IsUnique ((k, v) ∷ m) = (get k m ≡ none) × IsUnique m

  pub insert-IsUnique : (k : ℕ) (v : V) (m : Map V) → IsUnique m → IsUnique (insert k v m)
  unfolding insert get
  insert-IsUnique k v [] h = (refl, tt)
  insert-IsUnique k v ((j, w) ∷ m) h = elim (Bool-cases (j == k)) [
    | inl same ↦ rw same (rw (← (==_iff j k).0 same) h.0, h.1)
    | inr other ↦
        rw other
          (ground (arith, get-insert k j v m, ==_iff k j, ==_iff j k), insert-IsUnique k v m h.1)
  ]

  pub remove-IsUnique : (k : ℕ) (m : Map V) → IsUnique m → IsUnique (remove k m)
  unfolding remove
  remove-IsUnique k [] h = h
  remove-IsUnique k ((j, w) ∷ m) h = elim (Bool-cases (j == k)) [
    | inl same ↦ rw same (remove-IsUnique k m h.1)
    | inr other ↦ rw other (ground (arith, get-remove k j m), remove-IsUnique k m h.1)
  ]

  pub modify-IsUnique : (k : ℕ) (f : V → V) (m : Map V) → IsUnique m → IsUnique (modify k f m)
  unfolding modify
  modify-IsUnique k f [] h = h
  modify-IsUnique k f ((j, w) ∷ m) h = elim (Bool-cases (j == k)) [
    | inl same ↦ rw same h
    | inr other ↦ rw other (ground (arith, get-modify k j f m), modify-IsUnique k f m h.1)
  ]

  get-retain-none :
      (k : ℕ) (p : ℕ → V → Bool) (m : Map V) → get k m ≡ none → get k (retain p m) ≡ none
  unfolding get retain
  get-retain-none k p [] h = refl
  get-retain-none k p ((j, w) ∷ m) h = ground (arith, get-retain-none k p m)

  pub retain-IsUnique : (p : ℕ → V → Bool) (m : Map V) → IsUnique m → IsUnique (retain p m)
  unfolding retain
  retain-IsUnique p [] h = h
  retain-IsUnique p ((j, w) ∷ m) h = elim (Bool-cases (p j w)) [
    | inl kept ↦ rw kept (get-retain-none j p m h.0, retain-IsUnique p m h.1)
    | inr dropped ↦ rw dropped (retain-IsUnique p m h.1)
  ]

  abbrev pub keep_if : (V → Bool) → Option V → Option V
  keep_if p none = none
  keep_if p (some v) = if p v then some v else none

  -- After `retain`, a key is there with its value if its entry passes the test.
  pub get-retain :
      (p : ℕ → V → Bool) (k : ℕ) (m : Map V)
      → IsUnique m
      → get k (retain p m) ≡ keep_if (p k) (get k m)
  unfolding get retain
  get-retain p k [] h = refl
  get-retain p k ((j, w) ∷ m) h = elim (Bool-cases (j == k)) [
    | inl same ↦ rw (← (==_iff j k).0 same) (ground (arith, get-retain-none j p m))
    | inr other ↦ ground (arith, get-retain p k m)
  ]
