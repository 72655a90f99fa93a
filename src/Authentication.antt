-- ===== src/Authentication.antt =====
-- backend/src/adapters/auth/mod.rs: password hashes and access tokens, over the crates `argon2` and
-- `jsonwebtoken`, which are parameters.
pub mod Tokens
mod Examples
use ai_agent_boilerplate.Prelude.{ℕ, ◌+◌, Bool, false, Option, none, some, ◌++◌}
use ai_agent_boilerplate.Text.{Text, codes}
use ai_agent_boilerplate.Exec.{Result, convert}
use ai_agent_boilerplate.Domain.{Uuid, Time, minutes}
use ai_agent_boilerplate.Ports.{PortError, port_error, PasswordHasher, TokenService}

-- `iat` and `exp` are in seconds.
pub record Claims : Type 0 where
  pub sub : Text
  pub iat : ℕ
  pub exp : ℕ

-- `hash_password` with a salt, the parsing of a hash, and the comparison with a parsed hash.
module _ {H : Type 0} (hash_password : Text → Text → Result Text Text)
    (parse_hash : Text → Option H) (verify_password : Text → H → Bool) where
  abbrev pub verify_parsed : Text → Option H → Bool
  verify_parsed password none = false
  verify_parsed password (some parsed) = verify_password password parsed

  unfoldable pub hash : Text → Text → Result PortError Text
  hash salt password =
      convert (λ e. port_error (codes "argon2 hashing failed: " ++ e)) (hash_password password salt)

  unfoldable pub verify_hash : Text → Text → Bool
  verify_hash password hash = verify_parsed password (parse_hash hash)

  abbrev pub argon2_password_hasher : Text → PasswordHasher
  argon2_password_hasher salt = record { hash = hash salt; verify = verify_hash }

-- The secret is that of `encode` and `decode`; `decode` takes the clock in seconds, against which it
-- checks the expiry.
module _ (encode : Text → Claims → Result Text Text) (decode : Text → ℕ → Text → Option Claims)
    (uuid_text : Uuid → Text) (parse_uuid : Text → Option Uuid) (timestamp : Time → ℕ)
    (secret : Text) (ttl_minutes : ℕ) where
  abbrev pub claims_of : Time → Uuid → Claims
  claims_of now user_id = record {
    sub = uuid_text user_id;
    iat = timestamp now;
    exp = timestamp (now + minutes ttl_minutes);
  }

  unfoldable pub issue : Time → Uuid → Result PortError Text
  issue now user_id =
      convert (λ e. port_error (codes "jwt signing failed: " ++ e))
        (encode secret (claims_of now user_id))

  abbrev pub subject : Option Claims → Option Uuid
  subject none = none
  subject (some claims) = parse_uuid claims.sub

  unfoldable pub verify : Time → Text → Option Uuid
  verify now token = subject (decode secret (timestamp now) token)

  -- At one reading of the clock.
  abbrev pub jwt_token_service : Time → TokenService
  jwt_token_service now = record { issue = issue now; verify = verify now }
