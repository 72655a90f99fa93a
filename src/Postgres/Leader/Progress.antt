-- ===== src/Postgres/Leader/Progress.antt =====
-- `PostgresLeaderLock` while the server answers every statement.
use mathlib.Core.Path.{subst}
use ai_agent_boilerplate.Prelude.{
  ℕ, ◌≡◌, refl, sym, ap, ◌∙◌, ◌≢◌, inl, inr, true, Option, none, some, ◌==◌, ==_iff, ==-refl,
  Bool-cases,
}
use ai_agent_boilerplate.Postgres.Server.{Answer, answered}
use ai_agent_boilerplate.Postgres.Leader.Cluster.{
  Cluster, put, view, without_owner, Step, acquires, no_connection, releases, dies, Reach, start,
  next,
}
use ai_agent_boilerplate.Postgres.Leader.Exclusion.{Owns, Inv, Reach-Inv, acquire-none}
use ai_agent_boilerplate.Postgres.Leader.{Session, Hold, try_lock, unlock, acquire, release, let_go}

-- The lock was taken once, by the connection of a replica that believes to lead.
abbrev Held : (ℕ → Option Session) → Option Hold → Type 0
Held held none = Unit
Held held (some h) = (h.taken ≡ 1) × (i : ℕ) × (held i ≡ some h.session)

abbrev pub Calm : Answer → Type 0
Calm a = a ≡ answered

module _ (owner : Session → ℕ) where
  put_same : (i : ℕ) (held : ℕ → Option Session) (j : ℕ) → put i (held i) held j ≡ held j
  put_same i held j = elim (Bool-cases (j == i)) [
    | inl same ↦ rw same (ap held (sym ((==_iff j i).0 same)))
    | inr other ↦ rw other
  ]

  put_at : (i : ℕ) (v : Option Session) (held : ℕ → Option Session) → put i v held i ≡ v
  put_at i v held = rw (==-refl i)

  Held-same :
      (i : ℕ) (held : ℕ → Option Session) (lock : Option Hold)
      → Held held lock
      → Held (put i (held i) held) lock
  Held-same i held none h = tt
  Held-same i held (some k) (one, j, e) = (one, j, put_same i held j ∙ e)

  holder :
      (j : ℕ) (held : ℕ → Option Session) (k : Hold)
      → held j ≡ some k.session
      → Owns owner j (held j) (some k)
      → owner k.session ≡ j
  holder j held k e own = (subst (λ o. Owns owner j o (some k)) e own).1

  acquire-Held :
      (i : ℕ) (c : Session) (held : ℕ → Option Session) (lock : Option Hold)
      → owner c ≡ i
      → held i ≢ some c
      → ((j : ℕ) → Owns owner j (held j) lock)
      → Held held lock
      → Held
          (put i (acquire (some c) answered (record { lock = lock; held = held i })).1.held held)
          (acquire (some c) answered (record { lock = lock; held = held i })).1.lock
  unfolding acquire try_lock
  acquire-Held i c held none o out inv h = (refl, i, put_at i (some c) held)
  acquire-Held i c held (some k) o out inv (one, j, e) = elim (Bool-cases (k.session == c)) [
    | inl same ↦
        let mine = holder j held k e (inv j) in
        absurd (
          out (
            ap held (sym o ∙ ap owner (sym ((==_iff k.session c).0 same)) ∙ mine)
            ∙ e
            ∙ ap some ((==_iff k.session c).0 same)))
    | inr other ↦ rw other (one, j, put_same i held j ∙ e)
  ]

  release-Held :
      (i : ℕ) (mine : Option Session) (held : ℕ → Option Session) (lock : Option Hold)
      → held i ≡ mine
      → Owns owner i mine lock
      → Held held lock
      → Held
          (put i (let_go mine answered (record { lock = lock; held = mine })).held held)
          (let_go mine answered (record { lock = lock; held = mine })).lock
  unfolding unlock
  release-Held i none held lock e own h =
      subst (λ v. Held (put i v held) lock) e (Held-same i held lock h)
  release-Held i (some c) held none e own h = tt
  release-Held i (some c) held (some k) e own (one, j, p) =
      rw ((==_iff k.session c).1 own.0) (rw one tt)

  dies-Held :
      (i : ℕ) (held : ℕ → Option Session) (lock : Option Hold)
      → ((j : ℕ) → Owns owner j (held j) lock)
      → Held held lock
      → Held (put i none held) (without_owner owner i lock)
  dies-Held i held none inv h = tt
  dies-Held i held (some k) inv (one, j, e) = elim (Bool-cases (owner k.session == i)) [
    | inl same ↦ rw same tt
    | inr other ↦ rw other (
      one,
      j,
      elim (Bool-cases (j == i)) [
        | inl self ↦ cc (
          other,
          (==_iff (owner k.session) i).1 (holder j held k e (inv j) ∙ (==_iff j i).0 self),
        )
        | inr no' ↦ rw no' e
      ],
    )
  ]

  Step-Held :
      {s t : Cluster} → Step owner Calm s t → Inv owner s → Held s.held s.lock → Held t.held t.lock
  unfolding release
  Step-Held {s} (acquires i c a calm o out) inv h =
      rw calm (acquire-Held i c s.held s.lock o out inv h)
  Step-Held {s} (no_connection i a) inv h = rw acquire-none (Held-same i s.held s.lock h)
  Step-Held {s} (releases i a calm) inv h =
      rw calm (release-Held i (s.held i) s.held s.lock refl (inv i) h)
  Step-Held {s} (dies i) inv h = dies-Held i s.held s.lock inv h

  Reach-Held : {s : Cluster} → Reach owner Calm s → Held s.held s.lock
  Reach-Held start = tt
  Reach-Held (next r st) = Step-Held st (Reach-Inv owner r) (Reach-Held r)

  lock_free :
      (held : ℕ → Option Session) (lock : Option Hold)
      → Held held lock
      → ((j : ℕ) → held j ≡ none)
      → lock ≡ none
  lock_free held none h idle = refl
  lock_free held (some k) (one, j, e) idle = cc (idle j, e)

  -- Where the server answers every statement, in every interleaving of attempts, releases and
  -- processes that die, an attempt of any replica on any connection succeeds whenever no replica
  -- believes that it leads, where a session ends only with its process and the pool gives out no
  -- connection that is out.
  pub free_to_lead :
      {s : Cluster} (i : ℕ) (c : Session)
      → Reach owner Calm s
      → ((j : ℕ) → s.held j ≡ none)
      → (acquire (some c) answered (view i s)).0 ≡ true
  unfolding acquire try_lock
  free_to_lead {s} i c r idle = rw (lock_free s.held s.lock (Reach-Held r) idle)
