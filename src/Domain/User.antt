-- ===== src/Domain/User.antt =====
-- backend/src/domain/user.rs: an account.
use ai_agent_boilerplate.Text.{Text}
use ai_agent_boilerplate.Domain.{Uuid, Time, now_utc}

pub record User : Type 0 where
  pub id : Uuid
  pub email : Text
  pub password_hash : Text
  pub created_at : Time

unfoldable pub new : Uuid → Time → Text → Text → User
new id now email password_hash = record {
  id = id;
  email = email;
  password_hash = password_hash;
  created_at = now_utc now;
}
