-- ===== src/RateLimit/Shared/Admits.antt =====
-- How many of a client's requests the shared limiter lets through in a window.
use mathlib.Core.List.{append_cancel_left, append_cancel_right}
use ai_agent_boilerplate.Prelude.{
  ℕ, suc, ◌+◌, ◌-◌, ◌/◌, ◌^◌, ◌<◌, min, ◌≡◌, ap, ◌∙◌, inl, inr, true, false, ◌&&◌, [], ◌∷◌, ◌++◌,
  arith, leb, if◌then◌else◌, Bool-cases, All,
}
use ai_agent_boilerplate.Text.{Text, codes, text_eq, text_eq→≡, text_eq_refl}
use ai_agent_boilerplate.Text.Decimal.{decimal}
use ai_agent_boilerplate.Exec.{Exec, ok}
use ai_agent_boilerplate.RateLimit.Window.{Requests, requests_of}
use ai_agent_boilerplate.RateLimit.Shared.{RedisWindowLimiter, bucket, redis_allow}

-- In one window, two clients have the same bucket only if they are the same.
bucket-other :
    (scope client key : Text) (window : ℕ)
    → text_eq client key ≡ false
    → text_eq (bucket scope client window) (bucket scope key window) ≡ false
unfolding bucket
bucket-other scope client key window h =
    elim (Bool-cases (text_eq (bucket scope client window) (bucket scope key window))) [
      | inl same ↦
          let e = text_eq→≡ _ _ same in
          let tails = append_cancel_left scope _ _ (append_cancel_left (codes "rl:") _ _ e) in
          let keys =
            append_cancel_right client key (codes ":" ++ decimal window)
              (append_cancel_left (codes ":") _ _ tails) in
          absurd (ground (arith, ap (λ t. text_eq t key) keys, text_eq_refl key))
      | inr differ ↦ differ
    ]

module _ {S : Type 0} (count : Text → ℕ → Exec Text S ℕ) (limiter : RedisWindowLimiter) where
  -- How many of a client's requests are let through.
  unfoldable pub shared_through : Text → Requests → S → ℕ
  shared_through key [] s = 0
  shared_through key ((client, now) ∷ requests) s =
      let r = redis_allow count limiter client now s in
      let rest = shared_through key requests r.1 in
      if text_eq client key && r.0 then suc rest else rest

  -- A server that keeps a counter for each bucket, and is always reached.
  module _ (read : Text → S → ℕ)
      (counts : (b : Text) (expiry : ℕ) (s : S)
        → suc (read b s) < 2 ^ 32
        → (count b expiry s).0 ≡ ok (suc (read b s)))
      (raises : (b : Text) (expiry : ℕ) (s : S) → read b (count b expiry s).1 ≡ suc (read b s))
      (spares : (b other : Text) (expiry : ℕ) (s : S)
        → text_eq b other ≡ false
        → read other (count b expiry s).1 ≡ read other s) where
    redis_allow-own :
        (key client : Text) (now window n : ℕ) (s : S)
        → text_eq client key ≡ true
        → now / limiter.window_secs ≡ window
        → read (bucket limiter.scope key window) s ≡ n
        → suc n < 2 ^ 32
        → ((redis_allow count limiter client now s).0 ≡ leb (suc n) limiter.max_per_window)
          × (read (bucket limiter.scope key window) (redis_allow count limiter client now s).1
              ≡ suc n)
    unfolding redis_allow
    redis_allow-own key client now window n s own w r b =
        let expiry = limiter.window_secs + 1 in
        let k = bucket limiter.scope key window in
        rw (text_eq→≡ client key own, w)
          (rw (counts k expiry s (rw r b)) (rw r), raises k expiry s ∙ ap suc r)

    redis_allow-other :
        (key client : Text) (now window : ℕ) (s : S)
        → text_eq client key ≡ false
        → now / limiter.window_secs ≡ window
        → read (bucket limiter.scope key window) (redis_allow count limiter client now s).1
          ≡ read (bucket limiter.scope key window) s
    unfolding redis_allow
    redis_allow-other key client now window s other w = rw w (
        spares (bucket limiter.scope client window) (bucket limiter.scope key window)
          (limiter.window_secs + 1) s (bucket-other limiter.scope client key window other))

    through_from :
        (key : Text) (window n : ℕ) (requests : Requests) (s : S)
        → All (λ r. r.1 / limiter.window_secs ≡ window) requests
        → read (bucket limiter.scope key window) s ≡ n
        → n + requests_of key requests < 2 ^ 32
        → shared_through key requests s
          ≡ min (requests_of key requests) (limiter.max_per_window - n)
    unfolding shared_through requests_of
    through_from key window n [] s w r b = omega arith
    through_from key window n ((client, now) ∷ requests) s w r b =
        elim (Bool-cases (text_eq client key)) [
          | inl own ↦
              let one = redis_allow-own key client now window n s own w.0 r (ground arith) in
              let rest =
                through_from key window (suc n) requests (redis_allow count limiter client now s).1
                  w.1 one.1 (ground arith) in
              rw (own, one.0) (ground (arith, rest))
          | inr other ↦ rw other (
              through_from key window n requests (redis_allow count limiter client now s).1 w.1
                (redis_allow-other key client now window s other w.0 ∙ r) (ground arith))
        ]

    -- Where the server is reached and keeps a counter for each bucket, and that of a client is
    -- at zero, of the client's requests in one window, fewer than 2 ^ 32, exactly the smaller of
    -- their number and the limit are let through by the shared limiter, however other clients'
    -- requests come between.
    pub shared_admits :
        (key : Text) (window : ℕ) (requests : Requests) (s : S)
        → All (λ r. r.1 / limiter.window_secs ≡ window) requests
        → read (bucket limiter.scope key window) s ≡ 0
        → requests_of key requests < 2 ^ 32
        → shared_through key requests s ≡ min (requests_of key requests) limiter.max_per_window
    shared_admits key window requests s w r b =
        omega (arith, through_from key window 0 requests s w r (omega arith))
