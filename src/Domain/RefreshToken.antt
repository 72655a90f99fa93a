-- ===== src/Domain/RefreshToken.antt =====
-- backend/src/domain/refresh_token.rs: single-use refresh tokens, in families.
use ai_agent_boilerplate.Prelude.{ℕ, ◌+◌, Bool, Option, none, leb, is_some}
use ai_agent_boilerplate.Text.{Text}
use ai_agent_boilerplate.Domain.{Uuid, Time, days, now_utc}

pub record RefreshToken : Type 0 where
  pub id : Uuid
  pub user_id : Uuid
  pub family_id : Uuid
  pub token_hash : Text
  pub expires_at : Time
  pub created_at : Time
  pub consumed_at : Option Time

-- What issuing a token draws from the environment: its identifier, and the plaintext that two
-- random identifiers print as.
pub record Draw : Type 0 where
  pub id : Uuid
  pub plaintext : Text

-- `hash` is SHA-256 in hexadecimal, of a third-party crate: a parameter.
module _ (hash : Text → Text) where
  unfoldable pub issue_in_family : Draw → Time → Uuid → Uuid → ℕ → RefreshToken × Text
  issue_in_family draw clock user_id family_id ttl_days =
      let now = now_utc clock in
      (
        record {
          id = draw.id;
          user_id = user_id;
          family_id = family_id;
          token_hash = hash draw.plaintext;
          expires_at = now + days ttl_days;
          created_at = now;
          consumed_at = none;
        },
        draw.plaintext,
      )

  unfoldable pub issue : Draw → Uuid → Time → Uuid → ℕ → RefreshToken × Text
  unfolding issue_in_family
  issue draw family_id clock user_id ttl_days =
      issue_in_family draw clock user_id family_id ttl_days

unfoldable pub is_consumed : RefreshToken → Bool
is_consumed t = is_some t.consumed_at

unfoldable pub is_expired : Time → RefreshToken → Bool
is_expired now t = leb t.expires_at now
