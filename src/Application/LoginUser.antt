-- ===== src/Application/LoginUser.antt =====
-- backend/src/application/login_user.rs: a login opens a token family.
pub mod Sessions
use ai_agent_boilerplate.Prelude.{ℕ, not, if◌then◌else◌}
use ai_agent_boilerplate.Text.{Text, trim}
use ai_agent_boilerplate.Exec.{◌>>=◌, ◌>>◌, Exec, pure, raise, from_result, convert, map_err, ok_or}
use ai_agent_boilerplate.Domain.{Uuid, Time}
use ai_agent_boilerplate.Domain.RefreshToken
use ai_agent_boilerplate.Domain.RefreshToken.{RefreshToken, issue}
use ai_agent_boilerplate.Ports.{
  PortError, UserRepository, PasswordHasher, TokenService, RefreshTokenRepository,
}

pub data LoginError : Type 0 where
  invalid_credentials : LoginError
  infrastructure : PortError → LoginError

pub record SessionTokens : Type 0 where
  pub access_token : Text
  pub refresh_token : Text

-- `lowercase` is `str::to_lowercase`, which follows the Unicode tables.
module _ {S : Type 0} (lowercase : Text → Text) (hash : Text → Text) (users : UserRepository S)
    (hasher : PasswordHasher) (tokens : TokenService) (refresh_tokens : RefreshTokenRepository S)
    (refresh_ttl_days : ℕ) where
  -- `family` and `draw` are the random values of the issued token, and `now` its clock.
  unfoldable pub execute :
      Uuid → RefreshToken.Draw → Time → Text → Text → Exec LoginError S SessionTokens
  execute family draw now email password = do
    stored ← map_err infrastructure (users.find_by_email (lowercase (trim email)))
    user ← ok_or invalid_credentials stored
    if not (hasher.verify password user.password_hash) then raise invalid_credentials else do
      let issued = issue hash draw family now user.id refresh_ttl_days
      map_err infrastructure (refresh_tokens.insert issued.0)
      access ← from_result (convert infrastructure (tokens.issue user.id))
      pure (record { access_token = access; refresh_token = issued.1 })
