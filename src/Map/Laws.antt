-- ===== src/Map/Laws.antt =====
-- What a read returns after a write, and what a write keeps of every entry.
use mathlib.Core.Path.{subst, subst⁻¹, subst₂}
use ai_agent_boilerplate.Prelude.{
  ℕ, ◌≡◌, refl, inl, inr, Bool, true, false, Option, none, some, [], ◌∷◌, arith, ◌==◌,
  if◌then◌else◌, ==_iff, Bool-cases, All,
}
use ai_agent_boilerplate.Map.{
  Map, get, insert, remove, modify, values, retain, find_value, AllEntries,
}

module _ {V : Type 0} where
  pub get-insert :
      (k j : ℕ) (v : V) (m : Map V) → get j (insert k v m) ≡ (if k == j then some v else get j m)
  unfolding get insert
  get-insert k j v [] = refl
  get-insert k j v ((i, w) ∷ m) = ground (arith, get-insert k j v m)

  pub get-remove : (k j : ℕ) (m : Map V) → get j (remove k m) ≡ (if k == j then none else get j m)
  unfolding get remove
  get-remove k j [] = ground arith
  get-remove k j ((i, w) ∷ m) = ground (arith, get-remove k j m)

  abbrev pub map_option : (V → V) → Option V → Option V
  map_option f none = none
  map_option f (some v) = some (f v)

  pub get-modify :
      (k j : ℕ) (f : V → V) (m : Map V)
      → get j (modify k f m) ≡ (if k == j then map_option f (get j m) else get j m)
  unfolding get modify
  get-modify k j f [] = ground arith
  get-modify k j f ((i, w) ∷ m) = ground (arith, get-modify k j f m)

  pub modify_absent : (k : ℕ) (f : V → V) (m : Map V) → get k m ≡ none → modify k f m ≡ m
  unfolding get modify
  modify_absent k f [] h = refl
  modify_absent k f ((i, w) ∷ m) h = ground (arith, modify_absent k f m)

  -- A value that is read is the value of an entry.
  pub AllEntries-get :
      (P : ℕ → V → Type 0) (k : ℕ) (v : V) (m : Map V) → AllEntries P m → get k m ≡ some v → P k v
  unfolding get
  AllEntries-get P k v [] h e = absurd (ground arith)
  AllEntries-get P k v ((j, w) ∷ m) h e = elim (Bool-cases (j == k)) [
    | inl same ↦ subst₂ P ((==_iff j k).0 same) (ground arith) h.0
    | inr other ↦ AllEntries-get P k v m h.1 (rw other at e)
  ]

  pub AllEntries-map :
      (P Q : ℕ → V → Type 0) (m : Map V)
      → ((k : ℕ) (v : V) → P k v → Q k v)
      → AllEntries P m
      → AllEntries Q m
  AllEntries-map P Q [] f h = tt
  AllEntries-map P Q ((j, w) ∷ m) f h = (f j w h.0, AllEntries-map P Q m f h.1)

  pub AllEntries-insert :
      (P : ℕ → V → Type 0) (k : ℕ) (v : V) (m : Map V)
      → AllEntries P m
      → P k v
      → AllEntries P (insert k v m)
  unfolding insert
  AllEntries-insert P k v [] h p = (p, tt)
  AllEntries-insert P k v ((j, w) ∷ m) h p = elim (Bool-cases (j == k)) [
    | inl same ↦ rw same (p, h.1)
    | inr other ↦ rw other (h.0, AllEntries-insert P k v m h.1 p)
  ]

  pub AllEntries-remove :
      (P : ℕ → V → Type 0) (k : ℕ) (m : Map V) → AllEntries P m → AllEntries P (remove k m)
  unfolding remove
  AllEntries-remove P k [] h = h
  AllEntries-remove P k ((j, w) ∷ m) h = elim (Bool-cases (j == k)) [
    | inl same ↦ rw same (AllEntries-remove P k m h.1)
    | inr other ↦ rw other (h.0, AllEntries-remove P k m h.1)
  ]

  pub AllEntries-modify :
      (P : ℕ → V → Type 0) (k : ℕ) (f : V → V) (m : Map V)
      → ((v : V) → P k v → P k (f v))
      → AllEntries P m
      → AllEntries P (modify k f m)
  unfolding modify
  AllEntries-modify P k f [] keep h = h
  AllEntries-modify P k f ((j, w) ∷ m) keep h = elim (Bool-cases (j == k)) [
    | inl same ↦
        let e = (==_iff j k).0 same in
        rw same (subst⁻¹ (λ i. P i (f w)) e (keep w (subst (λ i. P i w) e h.0)), h.1)
    | inr other ↦ rw other (h.0, AllEntries-modify P k f m keep h.1)
  ]

  pub AllEntries-retain :
      (P : ℕ → V → Type 0) (p : ℕ → V → Bool) (m : Map V)
      → AllEntries P m
      → AllEntries P (retain p m)
  unfolding retain
  AllEntries-retain P p [] h = h
  AllEntries-retain P p ((j, w) ∷ m) h = elim (Bool-cases (p j w)) [
    | inl kept ↦ rw kept (h.0, AllEntries-retain P p m h.1)
    | inr dropped ↦ rw dropped (AllEntries-retain P p m h.1)
  ]

  -- What `retain` leaves passes its test.
  pub retain_passes : (p : ℕ → V → Bool) (m : Map V) → AllEntries (λ k v. p k v ≡ true) (retain p m)
  unfolding retain
  retain_passes p [] = tt
  retain_passes p ((j, w) ∷ m) = elim (Bool-cases (p j w)) [
    | inl kept ↦ rw kept (kept, retain_passes p m)
    | inr dropped ↦ rw dropped (retain_passes p m)
  ]

  -- `retain` keeps, in order, every entry that passes a stronger test.
  pub retain-retain :
      (q p : ℕ → V → Bool) (m : Map V)
      → ((k : ℕ) (v : V) → q k v ≡ true → p k v ≡ true)
      → retain q (retain p m) ≡ retain q m
  unfolding retain
  retain-retain q p [] h = refl
  retain-retain q p ((j, w) ∷ m) h = ground (arith, h j w, retain-retain q p m h)

  -- A test that every entry passes leaves the map alone.
  pub retain_all :
      (p : ℕ → V → Bool) (m : Map V) → AllEntries (λ k v. p k v ≡ true) m → retain p m ≡ m
  unfolding retain
  retain_all p [] h = refl
  retain_all p ((j, w) ∷ m) h = ground (arith, retain_all p m)

  pub All-values : (P : V → Type 0) (m : Map V) → AllEntries (λ _ v. P v) m → All P (values m)
  unfolding values
  All-values P [] h = tt
  All-values P ((j, w) ∷ m) h = (h.0, All-values P m h.1)

  pub find_value-holds : (p : V → Bool) (v : V) (m : Map V) → find_value p m ≡ some v → p v ≡ true
  unfolding find_value
  find_value-holds p v [] e = ground arith
  find_value-holds p v ((j, w) ∷ m) e = ground (arith, find_value-holds p v m)

  pub find_value-none :
      (p : V → Bool) (m : Map V) → AllEntries (λ _ v. p v ≡ false) m → find_value p m ≡ none
  unfolding find_value
  find_value-none p [] h = refl
  find_value-none p ((j, w) ∷ m) h = ground (arith, find_value-none p m)

pub ruleset map_laws = (get-insert, get-remove, get-modify)
