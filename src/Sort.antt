-- ===== src/Sort.antt =====
-- `sort_by_key` and `sort_by` of the standard library: a stable sort. Only what the documentation
-- promises is used of it (an ordered, stable permutation), and an insertion sort computes it.
pub mod Laws
use ai_agent_boilerplate.Prelude.{Bool, List, [], ◌∷◌, if◌then◌else◌}

module _ {A : Type 0} (le : A → A → Bool) where
  unfoldable pub insert_sorted : A → List A → List A
  insert_sorted x [] = x ∷ []
  insert_sorted x (y ∷ ys) = if le x y then x ∷ y ∷ ys else y ∷ insert_sorted x ys

  unfoldable pub sort_by : List A → List A
  sort_by [] = []
  sort_by (x ∷ xs) = insert_sorted x (sort_by xs)
