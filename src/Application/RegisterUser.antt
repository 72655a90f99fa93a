-- ===== src/Application/RegisterUser.antt =====
-- backend/src/application/register_user.rs: a new account.
pub mod Accounts
use ai_agent_boilerplate.Prelude.{Bool, not, ◌||◌, ltb, if◌then◌else◌, is_some}
use ai_agent_boilerplate.Text.{Text, trim, contains_char, byte_len}
use ai_agent_boilerplate.Exec.{◌>>=◌, ◌>>◌, Exec, pure, raise, from_result, convert, map_err}
use ai_agent_boilerplate.Domain.{Uuid, Time}
use ai_agent_boilerplate.Domain.User
use ai_agent_boilerplate.Domain.User.{User}
use ai_agent_boilerplate.Ports.{PortError, UserRepository, PasswordHasher}

pub data RegisterError : Type 0 where
  email_taken invalid_email password_too_short : RegisterError
  infrastructure : PortError → RegisterError

-- The checks on an address and a password, both measured in bytes.
unfoldable pub is_bad_email : Text → Bool
is_bad_email email = not (contains_char b'@' email) || ltb (byte_len email) 3

module _ {S : Type 0} (lowercase : Text → Text) (users : UserRepository S)
    (hasher : PasswordHasher) where
  unfoldable pub execute : Uuid → Time → Text → Text → Exec RegisterError S User
  execute id now raw password = do
    let email = lowercase (trim raw)
    if is_bad_email email
        then raise invalid_email
        else if ltb (byte_len password) 8
        then raise password_too_short
        else do
          taken ← map_err infrastructure (users.find_by_email email)
          if is_some taken then raise email_taken else do
            hashed ← from_result (convert infrastructure (hasher.hash password))
            let user = User.new id now email hashed
            map_err infrastructure (users.insert user)
            pure user
