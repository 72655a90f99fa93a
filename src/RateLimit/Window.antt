-- ===== src/RateLimit/Window.antt =====
-- How many requests of a client the limiter lets through in the window that its first one opens.
use ai_agent_boilerplate.Prelude.{
  ℕ, suc, ◌+◌, ◌-◌, ◌^◌, ◌<◌, min, ◌≡◌, refl, ap, ◌∙◌, inl, inr, true, false, ◌&&◌, none, some,
  List, [], ◌∷◌, arith, leb, if◌then◌else◌, Bool-cases, All,
}
use ai_agent_boilerplate.Text.{Text, text_eq, text_eq→≡, text_eq_refl}
use ai_agent_boilerplate.RateLimit.{
  Hits, Table, FixedWindowLimiter, find_hits, put_hits, housekeep, is_live, allow_at,
}

find_hits-put_hits_same :
    (key : Text) (h : Hits) (table : Table) → find_hits key (put_hits key h table) ≡ some h
unfolding find_hits put_hits
find_hits-put_hits_same key h [] = ground (arith, text_eq_refl key)
find_hits-put_hits_same key h ((k, v) ∷ table) =
    ground (arith, text_eq_refl key, find_hits-put_hits_same key h table)

find_hits-put_hits_other :
    (key other : Text) (h : Hits) (table : Table)
    → text_eq other key ≡ false
    → find_hits key (put_hits other h table) ≡ find_hits key table
unfolding find_hits put_hits
find_hits-put_hits_other key other h [] e = ground (arith, e)
find_hits-put_hits_other key other h ((k, v) ∷ table) e = ground (
  arith,
  e,
  text_eq→≡ k other,
  ap (λ t. text_eq t key) {x = k} {y = other},
  find_hits-put_hits_other key other h table e,
)

-- Housekeeping keeps a live entry.
find_hits-housekeep :
    (limiter : FixedWindowLimiter) (now : ℕ) (key : Text) (h : Hits) (table : Table)
    → find_hits key table ≡ some h
    → is_live limiter now h ≡ true
    → find_hits key (housekeep limiter now table) ≡ some h
unfolding find_hits housekeep
find_hits-housekeep limiter now key h [] e l = ground (arith, e)
find_hits-housekeep limiter now key h ((k, v) ∷ table) e l =
    ground (arith, e, l, find_hits-housekeep limiter now key h table)

-- The requests, each with its client and its time.
abbrev pub Requests : Type 0
Requests = List (Text × ℕ)

-- How many of a client's requests are let through, and how many there are.
unfoldable pub let_through : FixedWindowLimiter → Text → Requests → Table → ℕ
let_through limiter key [] table = 0
let_through limiter key ((client, now) ∷ requests) table =
    let r = allow_at limiter client now table in
    let rest = let_through limiter key requests r.1 in
    if text_eq client key && r.0 then suc rest else rest

unfoldable pub requests_of : Text → Requests → ℕ
requests_of key [] = 0
requests_of key ((client, now) ∷ requests) =
    let rest = requests_of key requests in if text_eq client key then suc rest else rest

-- Every request falls into the window that opened at `start`.
abbrev pub IsWithin : FixedWindowLimiter → ℕ → Requests → Type 0
IsWithin limiter start requests = All (λ r. r.1 - start < limiter.window) requests

allow_own :
    (limiter : FixedWindowLimiter) (key : Text) (now : ℕ) (h : Hits) (table : Table)
    → find_hits key table ≡ some h
    → now - h.start < limiter.window
    → suc h.count < 2 ^ 32
    → ((allow_at limiter key now table).0 ≡ leb (suc h.count) limiter.max_per_window)
      × (find_hits key (allow_at limiter key now table).1 ≡ some (record h { count = suc h.count }))
unfolding allow_at
allow_own limiter key now h table e l u =
    rw (find_hits-housekeep limiter now key h table e (ground (arith, l))) (
      ground (
        arith,
        find_hits-put_hits_same key (record h { count = suc h.count })
            (housekeep limiter now table),
      ))

allow_other :
    (limiter : FixedWindowLimiter) (key client : Text) (now : ℕ) (h : Hits) (table : Table)
    → find_hits key table ≡ some h
    → now - h.start < limiter.window
    → text_eq client key ≡ false
    → find_hits key (allow_at limiter client now table).1 ≡ some h
unfolding allow_at
allow_other limiter key client now h table e l ne =
    find_hits-put_hits_other key client _ (housekeep limiter now table) ne
    ∙ find_hits-housekeep limiter now key h table e (ground (arith, l))

open_window :
    (limiter : FixedWindowLimiter) (key : Text) (requests : Requests) (h : Hits) (table : Table)
    → find_hits key table ≡ some h
    → IsWithin limiter h.start requests
    → h.count + requests_of key requests < 2 ^ 32
    → let_through limiter key requests table
      ≡ min (requests_of key requests) (limiter.max_per_window - h.count)
unfolding let_through requests_of
open_window limiter key [] h table e w u = omega arith
open_window limiter key ((client, now) ∷ requests) h table e w u =
    elim (Bool-cases (text_eq client key)) [
      | inr other ↦ rw other (
          open_window limiter key requests h (allow_at limiter client now table).1
            (allow_other limiter key client now h table e w.0 other) w.1 (rw other at u))
      | inl own ↦
          let u' : h.count + suc (requests_of key requests) < 2 ^ 32 = rw own at u in
          let first = allow_own limiter key now h table e w.0 (omega (arith, u')) in
          let rest =
            open_window limiter key requests (record h { count = suc h.count })
              (allow_at limiter key now table).1 first.1 w.1 (omega (arith, u')) in
          rw own (rw (text_eq→≡ client key own) (ground (arith, first.0, rest)))
    ]

allow_first :
    (limiter : FixedWindowLimiter) (key : Text) (now : ℕ) (table : Table)
    → find_hits key (housekeep limiter now table) ≡ none
    → ((allow_at limiter key now table).0 ≡ leb 1 limiter.max_per_window)
      × (find_hits key (allow_at limiter key now table).1
          ≡ some (record { start = now; count = 1 }))
unfolding allow_at
allow_first limiter key now table e = rw e (
  refl,
  find_hits-put_hits_same key (record { start = now; count = 1 }) (housekeep limiter now table),
)

-- Where a client has no live window, its request at a time opens one, and of it and the client's
-- requests that follow within the window, fewer than 2 ^ 32 in all, exactly the smaller of their
-- number and the limit are let through, however other clients' requests interleave.
pub window_admits :
    (limiter : FixedWindowLimiter) (key : Text) (now : ℕ) (requests : Requests) (table : Table)
    → find_hits key (housekeep limiter now table) ≡ none
    → IsWithin limiter now requests
    → 1 + requests_of key requests < 2 ^ 32
    → let_through limiter key ((key, now) ∷ requests) table
      ≡ min (1 + requests_of key requests) limiter.max_per_window
unfolding let_through
window_admits limiter key now requests table e w u =
    let first = allow_first limiter key now table e in
    let rest =
      open_window limiter key requests (record { start = now; count = 1 })
        (allow_at limiter key now table).1 first.1 w u in
    rw (text_eq_refl key) (ground (arith, first.0, rest))
