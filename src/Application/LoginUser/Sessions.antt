-- ===== src/Application/LoginUser/Sessions.antt =====
-- Every way in which a login can end, over the in-memory stack.
use ai_agent_boilerplate.Prelude.{ℕ, ◌≡◌, Bool, true, false, Option, some}
use ai_agent_boilerplate.Text.{Text, trim}
use ai_agent_boilerplate.Exec.{Result, ok, err}
use ai_agent_boilerplate.Map.{get, find_value}
use ai_agent_boilerplate.Map.Keyed.{passes}
use ai_agent_boilerplate.Domain.{Uuid, Time}
use ai_agent_boilerplate.Domain.User.{User}
use ai_agent_boilerplate.Domain.RefreshToken
use ai_agent_boilerplate.Domain.RefreshToken.{RefreshToken, issue, is_consumed}
use ai_agent_boilerplate.Ports.{PasswordHasher, TokenService}
use ai_agent_boilerplate.InMemory.Users
use ai_agent_boilerplate.InMemory.Users.{has_email}
use ai_agent_boilerplate.InMemory.Tokens
use ai_agent_boilerplate.InMemory.World.{World, user_repository, token_repository}
use ai_agent_boilerplate.Application.LoginUser.{
  LoginError, SessionTokens, invalid_credentials, infrastructure, execute,
}

abbrev pub has_password : PasswordHasher → Text → User → Bool
has_password hasher password user = hasher.verify password user.password_hash

-- The session's refresh token is stored, as a hash, live and first of its family.
pub record Opened (hash : Text → Text) (family : Uuid) (user : User) (session : SessionTokens)
    (t : RefreshToken) : Type 0 where
  pub owner : t.user_id ≡ user.id
  pub hashed : t.token_hash ≡ hash session.refresh_token
  pub own_family : t.family_id ≡ family
  pub live : is_consumed t ≡ false

module _ {X : Type 0} (lowercase hash : Text → Text) (hasher : PasswordHasher)
    (tokens : TokenService) (ttl_days : ℕ) (family : Uuid) (draw : RefreshToken.Draw) (now : Time)
    (email password : Text) where
  unfoldable pub login : World X → Result LoginError SessionTokens × World X
  login =
      execute lowercase hash user_repository hasher tokens token_repository ttl_days family draw now
        email password

  -- The account with the address, whatever its letters' case and the white space around it.
  abbrev pub account : World X → Option User
  account w = find_value (has_email (lowercase (trim email))) w.users

  abbrev pub LoginOutcome : World X → Result LoginError SessionTokens → World X → Type 0
  LoginOutcome w (ok session) w' =
      (user : User) × (t : RefreshToken) × (account w ≡ some user)
      × (has_password hasher password user ≡ true)
      × (tokens.issue user.id ≡ ok session.access_token)
      × (get draw.id w'.tokens ≡ some t)
      × Opened hash family user session t
  LoginOutcome w (err invalid_credentials) w' =
      (w' ≡ w) × (passes (has_password hasher password) (account w) ≡ false)
  LoginOutcome w (err (infrastructure e)) w' =
      (user : User) × (account w ≡ some user) × (tokens.issue user.id ≡ err e)
