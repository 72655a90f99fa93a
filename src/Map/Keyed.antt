-- ===== src/Map/Keyed.antt =====
-- Maps whose values carry their own key, and the keys of the values that pass a test.
use ai_agent_boilerplate.Prelude.{
  ℕ, ◌≡◌, refl, ap, inl, inr, Bool, false, Option, none, some, List, [], ◌∷◌, map, arith, ◌==◌,
  if◌then◌else◌, ==_iff, Bool-cases, filter, All, contains, All-map,
}
use ai_agent_boilerplate.Map.{Map, get, insert, modify, values, find_value, AllEntries}
use ai_agent_boilerplate.Map.Unique.{IsUnique}

abbrev pub passes : {V : Type 0} → (V → Bool) → Option V → Bool
passes p none = false
passes p (some v) = p v

module _ {V : Type 0} (ident : V → ℕ) where
  abbrev pub IsKeyed : Map V → Type 0
  IsKeyed m = AllEntries (λ k v. ident v ≡ k) m

  abbrev pub keys_where : (V → Bool) → Map V → List ℕ
  keys_where p m = map ident (filter p (values m))

  pub contains-keys_where :
      (p : V → Bool) (k : ℕ) (m : Map V)
      → IsUnique m
      → IsKeyed m
      → contains k (keys_where p m) ≡ passes p (get k m)
  unfolding get values
  contains-keys_where p k [] u h = refl
  contains-keys_where p k ((j, v) ∷ m) u h = ground (arith, contains-keys_where p k m u.1 h.1)

  pub find_value-get :
      (q : V → Bool) (t : V) (m : Map V)
      → IsUnique m
      → IsKeyed m
      → find_value q m ≡ some t
      → get (ident t) m ≡ some t
  unfolding get find_value
  find_value-get q t [] u h e = ground arith
  find_value-get q t ((j, v) ∷ m) u h e = ground (
    arith,
    find_value-get q t m u.1 h.1,
    ap (λ i. get i m) {x = j} {y = ident t},
    ==_iff j (ident t),
  )

  pub find_value-modify :
      (q : V → Bool) (f : V → V) (t : V) (m : Map V)
      → ((v : V) → q (f v) ≡ q v)
      → IsUnique m
      → IsKeyed m
      → find_value q m ≡ some t
      → find_value q (modify (ident t) f m) ≡ some (f t)
  unfolding find_value modify
  find_value-modify q f t [] same u h e = absurd (ground arith)
  find_value-modify q f t ((j, v) ∷ m) same u h e = ground (
    arith,
    find_value-modify q f t m same u.1 h.1,
    find_value-get q t m u.1 h.1,
    same v,
    same t,
    ap (λ i. get i m) {x = j} {y = ident t},
    ==_iff j (ident t),
  )

  -- The value of a key, among a list of values.
  unfoldable pub find_key : ℕ → List V → Option V
  find_key k [] = none
  find_key k (v ∷ vs) = if ident v == k then some v else find_key k vs

  abbrev pub HasDistinctKeys : List V → Type 0
  HasDistinctKeys [] = Unit
  HasDistinctKeys (v ∷ vs) = (find_key (ident v) vs ≡ none) × HasDistinctKeys vs

  abbrev pub option_where : (V → Bool) → Option V → Option V
  option_where p none = none
  option_where p (some v) = if p v then some v else none

  pub find_key-values :
      (p : V → Bool) (k : ℕ) (m : Map V)
      → IsUnique m
      → IsKeyed m
      → find_key k (filter p (values m)) ≡ option_where p (get k m)
  unfolding find_key get values
  find_key-values p k [] u h = refl
  find_key-values p k ((j, v) ∷ m) u h = ground (arith, find_key-values p k m u.1 h.1)

  pub values-HasDistinctKeys :
      (p : V → Bool) (m : Map V) → IsUnique m → IsKeyed m → HasDistinctKeys (filter p (values m))
  unfolding values
  values-HasDistinctKeys p [] u h = tt
  values-HasDistinctKeys p ((j, v) ∷ m) u h = elim (Bool-cases (p v)) [
    | inl kept ↦
        rw kept
          (rw h.0 (rw (find_key-values p j m u.1 h.1) (rw u.0)), values-HasDistinctKeys p m u.1 h.1)
    | inr dropped ↦ rw dropped (values-HasDistinctKeys p m u.1 h.1)
  ]

  pub values_stored :
      (m : Map V) → IsUnique m → IsKeyed m → All (λ v. get (ident v) m ≡ some v) (values m)
  unfolding values get
  values_stored [] u h = tt
  values_stored ((j, v) ∷ m) u h = (
    ground (arith, ==_iff j (ident v)),
    All-map (λ w. get (ident w) m ≡ some w) _
        (λ w e. ground (arith, ap (λ i. get i m) {x = j} {y = ident w}, ==_iff j (ident w)))
        (values m) (values_stored m u.1 h.1),
  )

pub find_value-insert :
    {V : Type 0} (q : V → Bool) (k : ℕ) (v : V) (m : Map V)
    → q v ≡ false
    → get k m ≡ none
    → find_value q (insert k v m) ≡ find_value q m
unfolding find_value insert get
find_value-insert q k v [] h e = ground arith
find_value-insert q k v ((j, w) ∷ m) h e = ground (arith, find_value-insert q k v m h)
