-- ===== src/Application/RefreshSession.antt =====
-- backend/src/application/refresh_session.rs: rotation with reuse detection, and logout.
pub mod Reuse
use ai_agent_boilerplate.Prelude.{ℕ, Option, none, some, if◌then◌else◌}
use ai_agent_boilerplate.Text.{Text}
use ai_agent_boilerplate.Exec.{
  ◌>>=◌, ◌>>◌, Exec, pure, raise, from_result, convert, map_err, attempt, ok_or,
}
use ai_agent_boilerplate.Domain.{Uuid, Time}
use ai_agent_boilerplate.Domain.RefreshToken
use ai_agent_boilerplate.Domain.RefreshToken.{
  RefreshToken, issue_in_family, is_consumed, is_expired,
}
use ai_agent_boilerplate.Domain.SecurityEvent
use ai_agent_boilerplate.Domain.SecurityEvent.{refresh_reuse_detected}
use ai_agent_boilerplate.Ports.{
  Port, PortError, RefreshTokenRepository, TokenService, SecurityAudit,
}
use ai_agent_boilerplate.Application.LoginUser.{SessionTokens}

pub data RefreshError : Type 0 where
  invalid_token : RefreshError
  infrastructure : PortError → RefreshError

-- What a rotation draws: the clock at the expiry test, at the mark and at the issue, the new
-- token's random values, and the identifier and time of an audit event.
pub record Moment : Type 0 where
  pub checked : Time
  pub consumed : Time
  pub issued : Time
  pub draw : RefreshToken.Draw
  pub event_id : Uuid
  pub event_at : Time

-- `family_text` prints a family for the audit log.
module _ {S : Type 0} (hash : Text → Text) (family_text : Uuid → Text)
    (refresh_tokens : RefreshTokenRepository S) (tokens : TokenService) (audit : SecurityAudit S)
    (refresh_ttl_days : ℕ) where
  -- A consumed token is replayed: its whole family is revoked, and the event is recorded on a
  -- best-effort basis.
  abbrev pub revoke_reused : Moment → RefreshToken → Exec RefreshError S SessionTokens
  revoke_reused m stored = do
    map_err infrastructure (refresh_tokens.delete_family stored.family_id)
    attempt {E' = RefreshError} (
        audit.record_event (
          SecurityEvent.new m.event_id m.event_at refresh_reuse_detected (some stored.user_id) none
            (family_text stored.family_id)))
    raise invalid_token

  abbrev pub drop_expired : RefreshToken → Exec RefreshError S SessionTokens
  drop_expired stored = do
    map_err infrastructure (refresh_tokens.delete stored.id)
    raise invalid_token

  abbrev pub replace : Moment → RefreshToken → Exec RefreshError S SessionTokens
  replace m stored = do
    map_err infrastructure (refresh_tokens.mark_consumed stored.id m.consumed)
    let next = issue_in_family hash m.draw m.issued stored.user_id stored.family_id refresh_ttl_days
    map_err infrastructure (refresh_tokens.insert next.0)
    access ← from_result (convert infrastructure (tokens.issue stored.user_id))
    pure (record { access_token = access; refresh_token = next.1 })

  unfoldable pub rotate : Moment → Text → Exec RefreshError S SessionTokens
  rotate m presented = do
    found ← map_err infrastructure (refresh_tokens.find_by_hash (hash presented))
    stored ← ok_or invalid_token found
    if is_consumed stored
        then revoke_reused m stored
        else if is_expired m.checked stored
        then drop_expired stored
        else replace m stored

  abbrev pub revoke_found : Option RefreshToken → Port S Unit
  revoke_found none = pure tt
  revoke_found (some stored) = refresh_tokens.delete_family stored.family_id

  unfoldable pub revoke : Text → Port S Unit
  revoke presented = do found ← refresh_tokens.find_by_hash (hash presented); revoke_found found
