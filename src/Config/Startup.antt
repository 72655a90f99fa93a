-- ===== src/Config/Startup.antt =====
-- What a configuration that starts the backend guarantees.
use ai_agent_boilerplate.Prelude.{
  ℕ, ◌+◌, ◌-◌, ◌*◌, ◌^◌, ◌≤◌, ◌<◌, ◌≡◌, refl, sym, ap, inl, inr, Bool, true, false, not, ◌&&◌,
  Option, none, some, List, [], ◌∷◌, arith, ltb, ◌==◌, Bool-cases, filter, All,
}
use ai_agent_boilerplate.Text.{Text, codes, is_empty}
use ai_agent_boilerplate.Text.Decimal.{parse_below, read_nonempty, read_digits, is_digit}
use ai_agent_boilerplate.Exec.{Result, ok, err}
use ai_agent_boilerplate.Config.{
  AppConfig, is_set, is_placeholder, nonempty, required_in_production, missing_required, unwrap_or,
  parse_option, get_u32, config_of, from_lookup, is_text, unless_missing, get,
}

-- The option holds a number below the bound, if it holds one.
abbrev BelowOption : ℕ → Option ℕ → Type 0
BelowOption bound none = Unit
BelowOption bound (some n) = n < bound

read_digits-Below : (bound n : ℕ) (s : Text) → n < bound → BelowOption bound (read_digits bound n s)
unfolding read_digits
read_digits-Below bound n [] h = h
read_digits-Below bound n (c ∷ s) h =
    elim (Bool-cases (is_digit c && ltb (n * 10 + (c - b'0')) bound)) [
      | inl good ↦ rw good (read_digits-Below bound (n * 10 + (c - b'0')) s (ground arith))
      | inr bad ↦ rw bad tt
    ]

parse_below-Below : (bound : ℕ) (s : Text) → 0 < bound → BelowOption bound (parse_below bound s)
unfolding parse_below read_nonempty
parse_below-Below bound [] h = tt
parse_below-Below bound (c ∷ []) h = elim (Bool-cases (c == b'+')) [
  | inl plus ↦ rw plus tt
  | inr other ↦ rw other (read_digits-Below bound 0 (c ∷ []) h)
]
parse_below-Below bound (c ∷ d ∷ s) h = elim (Bool-cases (c == b'+')) [
  | inl plus ↦ rw plus (read_digits-Below bound 0 (d ∷ s) h)
  | inr other ↦ rw other (read_digits-Below bound 0 (c ∷ d ∷ s) h)
]

unwrap_or-lt :
    (bound default : ℕ) (o : Option ℕ)
    → default < bound
    → BelowOption bound o
    → unwrap_or default o < bound
unwrap_or-lt bound default none d h = d
unwrap_or-lt bound default (some n) d h = h

parse_option-Below :
    (bound : ℕ) (o : Option Text) → 0 < bound → BelowOption bound (parse_option bound o)
parse_option-Below bound none h = tt
parse_option-Below bound (some s) h = parse_below-Below bound s h

module _ (lookup : Text → Option Text) where
  get_u32-lt : (name : Text) (default : ℕ) → default < 2 ^ 32 → get_u32 lookup name default < 2 ^ 32
  unfolding get_u32
  get_u32-lt name default h =
      unwrap_or-lt (2 ^ 32) default _ h
        (parse_option-Below (2 ^ 32) (get lookup name) (omega arith))

  -- Whatever the environment holds, the pool and the tick are at least one and the job timeout in
  -- seconds is far below 2 ^ 64, so that no multiplication of it wraps.
  pub config_bounds :
      let config = config_of lookup in
      (1 ≤ config.database_max_connections)
      × (config.database_max_connections < 2 ^ 32)
      × (1 ≤ config.scheduler_tick_seconds)
      × (config.scheduler_tick_seconds < 2 ^ 32)
      × (config.job_timeout_minutes * 60 < 2 ^ 64)
  unfolding config_of
  config_bounds = (
    omega arith,
    omega (arith, get_u32-lt (codes "DATABASE_MAX_CONNECTIONS") 10 (omega arith)),
    omega arith,
    omega (arith, get_u32-lt (codes "SCHEDULER_TICK_SECONDS") 60 (omega arith)),
    omega (arith, get_u32-lt (codes "JOB_TIMEOUT_MINUTES") 15 (omega arith)),
  )

-- The variable is set to this value, which is neither empty nor a placeholder.
abbrev pub IsReal : Option Text → Text → Type 0
IsReal o v = (o ≡ some v) × (is_empty v ≡ false) × (is_placeholder v ≡ false)

set-Real : (o : Option Text) → is_set o ≡ true → (v : Text) × IsReal o v × (nonempty o ≡ some v)
set-Real none h = absurd (ground arith)
set-Real (some v) h = (v, (refl, ground arith, ground arith), ground arith)

filter_none :
    {A : Type 0} (p : A → Bool) (xs : List A) → filter p xs ≡ [] → All (λ x. p x ≡ false) xs
filter_none p [] h = tt
filter_none p (x ∷ xs) h = elim (Bool-cases (p x)) [
  | inl kept ↦ ground arith
  | inr dropped ↦ (dropped, filter_none p xs (rw dropped at h))
]

truth : (b : Bool) → not b ≡ false → b ≡ true
truth true h = refl
truth false h = sym h

ok_value : AppConfig → Result (List Text) AppConfig → AppConfig
ok_value default (ok config) = config
ok_value default (err names) = default

module _ (lookup : Text → Option Text) where
  unless_missing-ok :
      (names : List Text) (config : AppConfig)
      → unless_missing lookup names ≡ ok config
      → (names ≡ []) × (config_of lookup ≡ config)
  unfolding ok_value
  unless_missing-ok [] config h = (refl, ap (ok_value config) h)
  unless_missing-ok (name ∷ names) config h = absurd (ground arith)

  -- A configuration that is accepted in production has a JWT secret, an internal token, a
  -- database and an agent that are those of the environment, and none of the four is empty or a
  -- development placeholder.
  pub production_checks :
      (config : AppConfig)
      → is_text (codes "production") (lookup (codes "APP_ENV")) ≡ true
      → from_lookup lookup ≡ ok config
      → IsReal (lookup (codes "JWT_SECRET")) config.jwt_secret
        × IsReal (lookup (codes "INTERNAL_API_TOKEN")) config.internal_token
        × ((url : Text) × (config.database_url ≡ some url)
            × IsReal (lookup (codes "DATABASE_URL")) url)
        × ((url : Text) × (config.agent_api_url ≡ some url)
            × IsReal (lookup (codes "AGENT_API_URL")) url)
  unfolding from_lookup missing_required config_of
  production_checks config production started =
      let passed =
        unless_missing-ok (missing_required lookup required_in_production) config
          (rw production at started) in
      let set = filter_none (λ name. not (is_set (lookup name))) required_in_production passed.0 in
      let jwt = set-Real (lookup (codes "JWT_SECRET")) (truth _ set.0) in
      let token = set-Real (lookup (codes "INTERNAL_API_TOKEN")) (truth _ set.1.0) in
      let database = set-Real (lookup (codes "DATABASE_URL")) (truth _ set.1.1.0) in
      let agent = set-Real (lookup (codes "AGENT_API_URL")) (truth _ set.1.1.1.0) in
      rw (← passed.1) (
        rw jwt.2 jwt.1,
        rw token.2 token.1,
        (database.0, database.2, database.1),
        (agent.0, agent.2, agent.1),
      )
