-- ===== src/Application/RegisterUser/Accounts.antt =====
-- Registration over the in-memory stack: who gets an account, and one account for an address.
use ai_agent_boilerplate.Prelude.{
  ◌≤◌, ◌<◌, ◌≡◌, refl, ◌∙◌, ◌≢◌, inl, inr, true, none, some, [], ◌∷◌, arith, ltb, ◌==◌, ==-refl,
  Bool-cases, Option-cases,
}
use ai_agent_boilerplate.Text.{Text, text_eq, text_eq_sym, trim, byte_len}
use ai_agent_boilerplate.Exec.{Result, ok, err, Result-cases}
use ai_agent_boilerplate.Map
use ai_agent_boilerplate.Map.{Map, get, find_value}
use ai_agent_boilerplate.Map.Laws.{get-insert}
use ai_agent_boilerplate.Map.Keyed.{find_value-insert}
use ai_agent_boilerplate.Domain.{Uuid, Time}
use ai_agent_boilerplate.Domain.User
use ai_agent_boilerplate.Domain.User.{User}
use ai_agent_boilerplate.Ports.{PasswordHasher}
use ai_agent_boilerplate.InMemory.Users
use ai_agent_boilerplate.InMemory.Users.{has_email}
use ai_agent_boilerplate.InMemory.World.{World, user_repository}
use ai_agent_boilerplate.Application.RegisterUser.{
  RegisterError, email_taken, invalid_email, password_too_short, infrastructure, is_bad_email,
  execute,
}

-- No two accounts have the same address.
abbrev pub HasOnePerEmail : Map User → Type 0
HasOnePerEmail [] = Unit
HasOnePerEmail ((k, u) ∷ m) = (find_value (has_email u.email) m ≡ none) × HasOnePerEmail m

-- A new account with an address that no account has keeps the addresses distinct.
insert-HasOnePerEmail :
    (id : Uuid) (user : User) (m : Map User)
    → get id m ≡ none
    → find_value (has_email user.email) m ≡ none
    → HasOnePerEmail m
    → HasOnePerEmail (Map.insert id user m)
unfolding get find_value Map.insert
insert-HasOnePerEmail id user [] g f h = (refl, tt)
insert-HasOnePerEmail id user ((k, u) ∷ m) g f h = elim (Bool-cases (k == id)) [
  | inl same ↦ absurd (ground (arith, g, same))
  | inr other ↦ elim (Bool-cases (text_eq u.email user.email)) [
    | inl taken ↦ absurd (ground (arith, f, taken))
    | inr free ↦ rw other (
      find_value-insert (has_email u.email) id user m (text_eq_sym user.email u.email ∙ free)
            (ground (arith, g, other))
          ∙ h.0,
      insert-HasOnePerEmail id user m (ground (arith, g, other)) (ground (arith, f, free)) h.1,
    )
  ]
]

module _ {X : Type 0} (lowercase : Text → Text) (hasher : PasswordHasher) (id : Uuid) (now : Time)
    (raw password : Text) where
  unfoldable pub register : World X → Result RegisterError User × World X
  register = execute lowercase user_repository hasher id now raw password

  -- What a registration in `w` leaves, for each of its results.
  abbrev pub RegisterOutcome : World X → Result RegisterError User → World X → Type 0
  RegisterOutcome w (ok user) w' =
      (user.email ≡ lowercase (trim raw))
      × (hasher.hash password ≡ ok user.password_hash)
      × (8 ≤ byte_len password)
      × (get id w'.users ≡ some user)
      × HasOnePerEmail w'.users
  RegisterOutcome w (err email_taken) w' =
      (w' ≡ w) × (find_value (has_email (lowercase (trim raw))) w.users ≢ none)
  RegisterOutcome w (err invalid_email) w' = (w' ≡ w) × (is_bad_email (lowercase (trim raw)) ≡ true)
  RegisterOutcome w (err password_too_short) w' = (w' ≡ w) × (byte_len password < 8)
  RegisterOutcome w (err (infrastructure e)) w' = (w' ≡ w) × (hasher.hash password ≡ err e)

  -- Under a fresh identifier, where no two accounts have the same address, a registration stores
  -- an account with the normalised address, the hashed password and at least 8 bytes of
  -- password, and no two accounts have the same address afterwards; or it is refused for a taken
  -- address, a bad address, a short password or a failed hash, with nothing changed.
  pub register_outcome :
      (w : World X)
      → get id w.users ≡ none
      → HasOnePerEmail w.users
      → RegisterOutcome w (register w).0 (register w).1
  unfolding register execute Users.find_by_email Users.insert User.new
  register_outcome w fresh distinct = elim (Bool-cases (is_bad_email (lowercase (trim raw)))) [
    | inl bad ↦ rw bad (refl, bad)
    | inr fine ↦ elim (Bool-cases (ltb (byte_len password) 8)) [
      | inl short ↦ rw (fine, short) (refl, ground (arith, short))
      | inr long ↦ elim (Option-cases (find_value (has_email (lowercase (trim raw))) w.users)) [
        | inr (u, taken) ↦ rw (fine, long, taken) (refl, λ e. ground (arith, e, taken))
        | inl free ↦ elim (Result-cases (hasher.hash password)) [
          | inr (e, lost) ↦ rw (fine, long, free, lost) (refl, lost)
          | inl (h, hashed) ↦
              rw (fine, long, free, hashed)
                (
                  refl,
                  hashed,
                  ground (arith, long),
                  rw get-insert (rw (==-refl id) refl),
                  insert-HasOnePerEmail id (User.new id now (lowercase (trim raw)) h) w.users fresh
                      free distinct,
                )
        ]
      ]
    ]
  ]
