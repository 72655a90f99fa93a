-- ===== src/Domain/SecurityEvent.antt =====
-- backend/src/domain/security_event.rs: an entry of the audit log.
use ai_agent_boilerplate.Prelude.{Option}
use ai_agent_boilerplate.Text.{Text, codes}
use ai_agent_boilerplate.Domain.{Uuid, Time, now_utc}

pub data SecurityEventKind : Type 0 where
  login_failed login_throttled refresh_reuse_detected quota_exceeded : SecurityEventKind

unfoldable pub as_str : SecurityEventKind → Text
as_str login_failed = codes "login_failed"
as_str login_throttled = codes "login_throttled"
as_str refresh_reuse_detected = codes "refresh_reuse_detected"
as_str quota_exceeded = codes "quota_exceeded"

pub record SecurityEvent : Type 0 where
  pub id : Uuid
  pub kind : Text
  pub user_id : Option Uuid
  pub client_ip : Option Text
  pub detail : Text
  pub created_at : Time

unfoldable pub new :
    Uuid → Time → SecurityEventKind → Option Uuid → Option Text → Text → SecurityEvent
new id now kind user_id client_ip detail = record {
  id = id;
  kind = as_str kind;
  user_id = user_id;
  client_ip = client_ip;
  detail = detail;
  created_at = now_utc now;
}
