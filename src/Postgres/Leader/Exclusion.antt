-- ===== src/Postgres/Leader/Exclusion.antt =====
-- `PostgresLeaderLock` in replicas that contend for it.
use mathlib.Core.Path.{subst}
use ai_agent_boilerplate.Prelude.{
  ℕ, ◌≡◌, refl, sym, ap, inl, inr, true, Option, none, some, ◌==◌, ==_iff, Bool-cases,
}
use ai_agent_boilerplate.Postgres.Server.{Answer, answered, refused, lost}
use ai_agent_boilerplate.Postgres.Leader.Cluster.{
  Cluster, put, view, without_owner, Step, acquires, no_connection, releases, dies, Reach, start,
  next,
}
use ai_agent_boilerplate.Postgres.Leader.{
  Session, Hold, LockState, try_lock, unlock, acquire, release, let_go,
}

-- Who believes to lead holds the lock, by a connection of its own.
abbrev pub Owns : (Session → ℕ) → ℕ → Option Session → Option Hold → Type 0
Owns owner i none lock = Unit
Owns owner i (some c) none = ⊥
Owns owner i (some c) (some h) = (h.session ≡ c) × (owner c ≡ i)

abbrev pub Inv : (Session → ℕ) → Cluster → Type 0
Inv owner s = (i : ℕ) → Owns owner i (s.held i) s.lock

pub acquire-none : (a : Answer) (l : LockState) → (acquire none a l).1 ≡ l
unfolding acquire
acquire-none a l = refl

module _ (owner : Session → ℕ) where
  -- The replica that calls.
  try_lock-Owns :
      (i : ℕ) (c : Session) (mine : Option Session) (lock : Option Hold)
      → Owns owner i mine lock
      → Owns owner i mine (try_lock c lock).1
  unfolding try_lock
  try_lock-Owns i c none lock h = tt
  try_lock-Owns i c (some d) none h = absurd h
  try_lock-Owns i c (some d) (some k) h = elim (Bool-cases (k.session == c)) [
    | inl same ↦ rw same h
    | inr other ↦ rw other h
  ]

  granted-Owns :
      (i : ℕ) (c : Session) (lock : Option Hold)
      → owner c ≡ i
      → (try_lock c lock).0 ≡ true
      → Owns owner i (some c) (try_lock c lock).1
  unfolding try_lock
  granted-Owns i c none o g = (refl, o)
  granted-Owns i c (some k) o g = elim (Bool-cases (k.session == c)) [
    | inl same ↦ rw same ((==_iff k.session c).0 same, o)
    | inr other ↦ cc (rw other at g)
  ]

  acquire-Owns :
      (i : ℕ) (c : Session) (a : Answer) (l : LockState)
      → owner c ≡ i
      → Owns owner i l.held l.lock
      → Owns owner i (acquire (some c) a l).1.held (acquire (some c) a l).1.lock
  unfolding acquire
  acquire-Owns i c answered l o h = elim (Bool-cases (try_lock c l.lock).0) [
    | inl yes' ↦ rw yes' (granted-Owns i c l.lock o yes')
    | inr no' ↦ rw no' (try_lock-Owns i c l.held l.lock h)
  ]
  acquire-Owns i c (refused m) l o h = h
  acquire-Owns i c (lost m) l o h = try_lock-Owns i c l.held l.lock h

  -- The others.
  acquire-lock :
      (j : ℕ) (c : Session) (a : Answer) (l : LockState) (theirs : Option Session)
      → Owns owner j theirs l.lock
      → Owns owner j theirs (acquire (some c) a l).1.lock
  unfolding acquire
  acquire-lock j c answered l theirs h = elim (Bool-cases (try_lock c l.lock).0) [
    | inl yes' ↦ rw yes' (try_lock-Owns j c theirs l.lock h)
    | inr no' ↦ rw no' (try_lock-Owns j c theirs l.lock h)
  ]
  acquire-lock j c (refused m) l theirs h = h
  acquire-lock j c (lost m) l theirs h = try_lock-Owns j c theirs l.lock h

  unlock-Owns :
      (i j : ℕ) (c : Session) (theirs : Option Session) (lock : Option Hold)
      → (j ≡ i → ⊥)
      → owner c ≡ i
      → Owns owner j theirs lock
      → Owns owner j theirs (unlock c lock)
  unfolding unlock
  unlock-Owns i j c none lock n o h = tt
  unlock-Owns i j c (some d) none n o h = absurd h
  unlock-Owns i j c (some d) (some k) n o h = elim (Bool-cases (k.session == c)) [
    | inl same ↦ absurd (n (cc ((==_iff k.session c).0 same, h.0, h.1, o)))
    | inr other ↦ rw other h
  ]

  held-by : (i : ℕ) (c : Session) (lock : Option Hold) → Owns owner i (some c) lock → owner c ≡ i
  held-by i c none h = absurd h
  held-by i c (some k) h = h.1

  let_go-Owns :
      (i j : ℕ) (a : Answer) (mine theirs : Option Session) (lock : Option Hold)
      → (j ≡ i → ⊥)
      → Owns owner i mine lock
      → Owns owner j theirs lock
      → Owns owner j theirs (let_go mine a (record { lock = lock; held = mine })).lock
  let_go-Owns i j a none theirs lock n m h = h
  let_go-Owns i j answered (some c) theirs lock n m h =
      unlock-Owns i j c theirs lock n (held-by i c lock m) h
  let_go-Owns i j (refused e) (some c) theirs lock n m h = h
  let_go-Owns i j (lost e) (some c) theirs lock n m h =
      unlock-Owns i j c theirs lock n (held-by i c lock m) h

  own-let_go :
      (i : ℕ) (a : Answer) (mine : Option Session) (lock : Option Hold)
      → Owns owner i mine lock
      → Owns owner i
          (let_go mine a (record { lock = lock; held = mine })).held
          (let_go mine a (record { lock = lock; held = mine })).lock
  own-let_go i a none lock h = h
  own-let_go i a (some c) lock h = tt

  dies-Owns :
      (i j : ℕ) (theirs : Option Session) (lock : Option Hold)
      → (j ≡ i → ⊥)
      → Owns owner j theirs lock
      → Owns owner j theirs (without_owner owner i lock)
  dies-Owns i j none lock n h = tt
  dies-Owns i j (some d) none n h = absurd h
  dies-Owns i j (some d) (some k) n h = elim (Bool-cases (owner k.session == i)) [
    | inl same ↦ absurd (n (cc ((==_iff (owner k.session) i).0 same, ap owner h.0, h.1)))
    | inr other ↦ rw other h
  ]

  -- What holds of the caller and of every other replica holds of all.
  put-Owns :
      (i : ℕ) (v : Option Session) (held : ℕ → Option Session) (lock : Option Hold) (j : ℕ)
      → Owns owner i v lock
      → ((j ≡ i → ⊥) → Owns owner j (held j) lock)
      → Owns owner j (put i v held j) lock
  put-Owns i v held lock j mine others = elim (Bool-cases (j == i)) [
    | inl same ↦ rw same (subst (λ k. Owns owner k v lock) (sym ((==_iff j i).0 same)) mine)
    | inr other ↦ rw other (others (λ e. cc ((==_iff j i).1 e, other)))
  ]

  Step-Inv :
      {May : Answer → Type 0} {s t : Cluster} → Step owner May s t → Inv owner s → Inv owner t
  unfolding release
  Step-Inv {s} (acquires i c a m o out) h j =
      put-Owns i _ s.held _ j (acquire-Owns i c a (view i s) o (h i))
        (λ n. acquire-lock j c a (view i s) (s.held j) (h j))
  Step-Inv {s} (no_connection i a) h j = rw acquire-none (put-Owns i _ s.held _ j (h i) (λ n. h j))
  Step-Inv {s} (releases i a m) h j =
      put-Owns i _ s.held _ j (own-let_go i a (s.held i) s.lock (h i))
        (λ n. let_go-Owns i j a (s.held i) (s.held j) s.lock n (h i) (h j))
  Step-Inv {s} (dies i) h j =
      put-Owns i none s.held _ j tt (λ n. dies-Owns i j (s.held j) s.lock n (h j))

  pub Reach-Inv : {May : Answer → Type 0} {s : Cluster} → Reach owner May s → Inv owner s
  Reach-Inv start = λ i. tt
  Reach-Inv (next r st) = Step-Inv st (Reach-Inv r)

  one_owner :
      (i j : ℕ) (c d : Session) (lock : Option Hold)
      → Owns owner i (some c) lock
      → Owns owner j (some d) lock
      → i ≡ j
  one_owner i j c d none h k = absurd h
  one_owner i j c d (some l) h k = cc (h.0, h.1, k.0, k.1)

  -- In every interleaving of the replicas' attempts at the lock and their releases, with failed
  -- and lost answers and with processes that die, at most one replica at a time believes that it
  -- leads the background loop, where a session ends only with its process and the pool gives out
  -- no connection that is out.
  pub one_leader :
      {May : Answer → Type 0} {s : Cluster} (i j : ℕ) {c d : Session}
      → Reach owner May s
      → s.held i ≡ some c
      → s.held j ≡ some d
      → i ≡ j
  one_leader {s} i j {c} {d} r p q =
      one_owner i j c d s.lock (subst (λ o. Owns owner i o s.lock) p (Reach-Inv r i))
        (subst (λ o. Owns owner j o s.lock) q (Reach-Inv r j))
