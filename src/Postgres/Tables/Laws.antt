-- ===== src/Postgres/Tables/Laws.antt =====
-- What deletions and updates of rows keep.
use ai_agent_boilerplate.Prelude.{
  ℕ, suc, ◌≡◌, refl, ap, inl, inr, Bool, true, false, not, List, [], ◌∷◌, ◌++◌, map, arith, ◌==◌,
  Bool-cases, length, filter, any, All, contains, All-filter,
}
use ai_agent_boilerplate.Postgres.Tables.{delete_where, update_where}

module _ {R : Type 0} (p : R → Bool) where
  pub delete_where-All : (rows : List R) → All (λ r. p r ≡ false) (delete_where p rows)
  unfolding delete_where
  delete_where-All [] = tt
  delete_where-All (r ∷ rows) = elim (Bool-cases (p r)) [
    | inl hit ↦ rw hit (delete_where-All rows)
    | inr miss ↦ rw miss (miss, delete_where-All rows)
  ]

  pub others_stay :
      (rows : List R) → filter (λ r. not (p r)) (delete_where p rows) ≡ filter (λ r. not (p r)) rows
  unfolding delete_where
  others_stay [] = refl
  others_stay (r ∷ rows) = ground (arith, others_stay rows)

  pub All-delete_where : (Q : R → Type 0) (rows : List R) → All Q rows → All Q (delete_where p rows)
  unfolding delete_where
  All-delete_where Q rows h = All-filter Q (λ r. not (p r)) rows h

  pub All-update_where :
      (Q : R → Type 0) (f : R → R) (rows : List R)
      → ((r : R) → Q r → Q (f r))
      → All Q rows
      → All Q (update_where p f rows)
  unfolding update_where
  All-update_where Q f [] k h = tt
  All-update_where Q f (r ∷ rows) k h = elim (Bool-cases (p r)) [
    | inl hit ↦ rw hit (k r h.0, All-update_where Q f rows k h.1)
    | inr miss ↦ rw miss (h.0, All-update_where Q f rows k h.1)
  ]

  pub update_where-All :
      (f : R → R) (rows : List R)
      → ((r : R) → p (f r) ≡ false)
      → All (λ r. p r ≡ false) (update_where p f rows)
  unfolding update_where
  update_where-All f [] k = tt
  update_where-All f (r ∷ rows) k = elim (Bool-cases (p r)) [
    | inl hit ↦ rw hit (k r, update_where-All f rows k)
    | inr miss ↦ rw miss (miss, update_where-All f rows k)
  ]

pub length-update_where :
    {R : Type 0} (p : R → Bool) (f : R → R) (rows : List R)
    → length (update_where p f rows) ≡ length rows
unfolding update_where
length-update_where p f [] = refl
length-update_where p f (r ∷ rows) = ap suc (length-update_where p f rows)

module _ {R : Type 0} where
  pub any-append : (p : R → Bool) (xs ys : List R) → any p xs ≡ true → any p (xs ++ ys) ≡ true
  any-append p [] ys h = cc
  any-append p (x ∷ xs) ys h = ground (arith, any-append p xs ys)

  pub any-update_where :
      (p q : R → Bool) (f : R → R) (rows : List R)
      → ((r : R) → p (f r) ≡ p r)
      → any p (update_where q f rows) ≡ any p rows
  unfolding update_where
  any-update_where p q f [] h = refl
  any-update_where p q f (r ∷ rows) h = ground (arith, h r, any-update_where p q f rows h)

  pub any-delete_where :
      (p q : R → Bool) (rows : List R)
      → ((r : R) → p r ≡ true → q r ≡ false)
      → any p rows ≡ true
      → any p (delete_where q rows) ≡ true
  unfolding delete_where
  any-delete_where p q [] h e = cc
  any-delete_where p q (r ∷ rows) h e = ground (arith, h r, any-delete_where p q rows h)

  -- A key that no deleted row has is still there.
  pub any-spared :
      (key : R → ℕ) (q : R → Bool) (k : ℕ) (rows : List R)
      → any (λ r. key r == k) rows ≡ true
      → contains k (map key (filter q rows)) ≡ false
      → any (λ r. key r == k) (delete_where q rows) ≡ true
  unfolding delete_where
  any-spared key q k [] h e = cc
  any-spared key q k (r ∷ rows) h e = ground (arith, any-spared key q k rows)
