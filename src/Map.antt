-- ===== src/Map.antt =====
-- `HashMap<Uuid, V>` as the list of its entries, in the order in which an iteration meets them:
-- that order is not specified, so what holds for every list holds for every order.
pub mod Laws
pub mod Unique
pub mod Keyed
use ai_agent_boilerplate.Prelude.{ℕ, Bool, Option, none, some, List, [], ◌∷◌, ◌==◌, if◌then◌else◌}

abbrev pub Map : Type 0 → Type 0
Map V = List (ℕ × V)

module _ {V : Type 0} where
  -- `get(&k)`
  unfoldable pub get : ℕ → Map V → Option V
  get k [] = none
  get k ((j, v) ∷ m) = if j == k then some v else get k m

  -- `insert(k, v)`, which replaces the value of a key that is there.
  unfoldable pub insert : ℕ → V → Map V → Map V
  insert k v [] = (k, v) ∷ []
  insert k v ((j, w) ∷ m) = if j == k then (k, v) ∷ m else (j, w) ∷ insert k v m

  -- `remove(&k)`
  unfoldable pub remove : ℕ → Map V → Map V
  remove k [] = []
  remove k ((j, v) ∷ m) = let rest = remove k m in if j == k then rest else (j, v) ∷ rest

  -- `if let Some(v) = get_mut(&k) { *v = f(v) }`
  unfoldable pub modify : ℕ → (V → V) → Map V → Map V
  modify k f [] = []
  modify k f ((j, v) ∷ m) = if j == k then (j, f v) ∷ m else (j, v) ∷ modify k f m

  -- `values()`
  unfoldable pub values : Map V → List V
  values [] = []
  values ((j, v) ∷ m) = v ∷ values m

  -- `retain(|k, v| p(k, v))`
  unfoldable pub retain : (ℕ → V → Bool) → Map V → Map V
  retain p [] = []
  retain p ((j, v) ∷ m) = let rest = retain p m in if p j v then (j, v) ∷ rest else rest

  -- `values().find(p)`
  unfoldable pub find_value : (V → Bool) → Map V → Option V
  find_value p [] = none
  find_value p ((j, v) ∷ m) = if p v then some v else find_value p m

  -- Every entry satisfies `P`.
  abbrev pub AllEntries : (ℕ → V → Type 0) → Map V → Type 0
  AllEntries P [] = Unit
  AllEntries P ((j, v) ∷ m) = P j v × AllEntries P m
