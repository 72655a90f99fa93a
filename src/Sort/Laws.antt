-- ===== src/Sort/Laws.antt =====
-- The sort returns an ordered permutation, and keeps the order of elements that compare equal.
use mathlib.Core.List.{Perm}
use mathlib.Core.List.Perm
use ai_agent_boilerplate.Prelude.{
  suc, ◌≡◌, refl, ap, ◌∙◌, inl, inr, Bool, true, false, List, [], ◌∷◌, map, arith, Bool-cases,
  length, filter, All,
}
use ai_agent_boilerplate.Sort.{insert_sorted, sort_by}

module _ {A : Type 0} (le : A → A → Bool) where
  abbrev pub IsSorted : List A → Type 0
  IsSorted [] = Unit
  IsSorted (x ∷ xs) = All (λ y. le x y ≡ true) xs × IsSorted xs

  insert_sorted-perm : (x : A) (xs : List A) → Perm (insert_sorted le x xs) (x ∷ xs)
  unfolding insert_sorted
  insert_sorted-perm x [] = Perm.refl (x ∷ [])
  insert_sorted-perm x (y ∷ ys) = elim (Bool-cases (le x y)) [
    | inl first ↦ rw first (Perm.refl (x ∷ y ∷ ys))
    | inr later ↦ rw later (Perm.trans (Perm.cons y (insert_sorted-perm x ys)) (Perm.swap x y ys))
  ]

  pub sort_by-perm : (xs : List A) → Perm (sort_by le xs) xs
  unfolding sort_by
  sort_by-perm [] = Perm.refl []
  sort_by-perm (x ∷ xs) =
      Perm.trans (insert_sorted-perm x (sort_by le xs)) (Perm.cons x (sort_by-perm xs))

  pub All-insert_sorted :
      (P : A → Type 0) (x : A) (xs : List A) → P x → All P xs → All P (insert_sorted le x xs)
  unfolding insert_sorted
  All-insert_sorted P x [] p h = (p, tt)
  All-insert_sorted P x (y ∷ ys) p h = elim (Bool-cases (le x y)) [
    | inl first ↦ rw first (p, h)
    | inr later ↦ rw later (h.0, All-insert_sorted P x ys p h.1)
  ]

  pub All-sort_by : (P : A → Type 0) (xs : List A) → All P xs → All P (sort_by le xs)
  unfolding sort_by
  All-sort_by P [] h = h
  All-sort_by P (x ∷ xs) h = All-insert_sorted P x (sort_by le xs) h.0 (All-sort_by P xs h.1)

  -- Where the elements that pass `p` compare equal, they keep their order.
  filter-insert_sorted :
      (p : A → Bool) (x : A) (xs : List A)
      → ((a b : A) → p a ≡ true → p b ≡ true → le a b ≡ true)
      → filter p (insert_sorted le x xs) ≡ filter p (x ∷ xs)
  unfolding insert_sorted
  filter-insert_sorted p x [] tie = refl
  filter-insert_sorted p x (y ∷ ys) tie = ground (arith, tie x y, filter-insert_sorted p x ys tie)

  pub filter-sort_by :
      (p : A → Bool) (xs : List A)
      → ((a b : A) → p a ≡ true → p b ≡ true → le a b ≡ true)
      → filter p (sort_by le xs) ≡ filter p xs
  unfolding sort_by
  filter-sort_by p [] tie = refl
  filter-sort_by p (x ∷ xs) tie =
      ground (arith, filter-insert_sorted p x (sort_by le xs) tie, filter-sort_by p xs tie)

  module _ (total : (a b : A) → le a b ≡ false → le b a ≡ true)
      (transitive : (a b c : A) → le a b ≡ true → le b c ≡ true → le a c ≡ true) where
    All-below :
        (x y : A) (ys : List A)
        → le x y ≡ true
        → All (λ z. le y z ≡ true) ys
        → All (λ z. le x z ≡ true) ys
    All-below x y [] h a = tt
    All-below x y (z ∷ zs) h a = (transitive x y z h a.0, All-below x y zs h a.1)

    insert_sorted-IsSorted : (x : A) (xs : List A) → IsSorted xs → IsSorted (insert_sorted le x xs)
    unfolding insert_sorted
    insert_sorted-IsSorted x [] h = (tt, tt)
    insert_sorted-IsSorted x (y ∷ ys) h = elim (Bool-cases (le x y)) [
      | inl first ↦ rw first ((first, All-below x y ys first h.0), h)
      | inr later ↦ rw later (
        All-insert_sorted (λ z. le y z ≡ true) x ys (total x y later) h.0,
        insert_sorted-IsSorted x ys h.1,
      )
    ]

    pub sort_by-IsSorted : (xs : List A) → IsSorted (sort_by le xs)
    unfolding sort_by
    sort_by-IsSorted [] = tt
    sort_by-IsSorted (x ∷ xs) = insert_sorted-IsSorted x (sort_by le xs) (sort_by-IsSorted xs)

module _ {A : Type 0} (le : A → A → Bool) where
  length-insert_sorted : (x : A) (xs : List A) → length (insert_sorted le x xs) ≡ suc (length xs)
  unfolding insert_sorted
  length-insert_sorted x [] = refl
  length-insert_sorted x (y ∷ ys) = ground (arith, length-insert_sorted x ys)

  pub length-sort_by : (xs : List A) → length (sort_by le xs) ≡ length xs
  unfolding sort_by
  length-sort_by [] = refl
  length-sort_by (x ∷ xs) = omega (arith, length-insert_sorted x (sort_by le xs), length-sort_by xs)

-- Sorting what a function returns, by an order on it, is sorting the arguments by the order that
-- they inherit.
module _ {A B : Type 0} (le : B → B → Bool) (f : A → B) where
  insert_sorted-map :
      (x : A) (xs : List A)
      → insert_sorted le (f x) (map f xs) ≡ map f (insert_sorted (λ a b. le (f a) (f b)) x xs)
  unfolding insert_sorted
  insert_sorted-map x [] = refl
  insert_sorted-map x (y ∷ ys) = elim (Bool-cases (le (f x) (f y))) [
    | inl first ↦ rw first
    | inr later ↦ rw later (ap (◌∷◌ (f y)) (insert_sorted-map x ys))
  ]

  pub sort_by-map :
      (xs : List A) → sort_by le (map f xs) ≡ map f (sort_by (λ a b. le (f a) (f b)) xs)
  unfolding sort_by
  sort_by-map [] = refl
  sort_by-map (x ∷ xs) =
      ap (insert_sorted le (f x)) (sort_by-map xs)
      ∙ insert_sorted-map x (sort_by (λ a b. le (f a) (f b)) xs)
