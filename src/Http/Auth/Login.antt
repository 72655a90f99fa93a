-- ===== src/Http/Auth/Login.antt =====
-- What a refused login tells.
use ai_agent_boilerplate.Prelude.{◌≡◌, Bool, true, false, Option, none, some}
use ai_agent_boilerplate.Text.{Text, codes, trim}
use ai_agent_boilerplate.Exec.{ok}
use ai_agent_boilerplate.Domain.{Uuid, Time}
use ai_agent_boilerplate.Domain.User.{User}
use ai_agent_boilerplate.Domain.RefreshToken
use ai_agent_boilerplate.Domain.SecurityEvent
use ai_agent_boilerplate.Domain.SecurityEvent.{login_failed}
use ai_agent_boilerplate.Application.LoginUser
use ai_agent_boilerplate.Http.Headers.{Headers, client_ip}
use ai_agent_boilerplate.Http.Views.{error_body}
use ai_agent_boilerplate.Http.State.{AppState, EventDraw, record_security_event}
use ai_agent_boilerplate.Http.Auth
use ai_agent_boilerplate.Http.Auth.{CredentialsRequest}

module _ {S : Type 0} (state : AppState S) where
  -- The password is that of the account found.
  abbrev pub opens : Text → Option User → Bool
  opens password none = false
  opens password (some user) = state.hasher.verify password user.password_hash

  abbrev pub email_key : CredentialsRequest → Text
  email_key body = state.library.lowercase (trim body.email)

  -- Where the throttle lets a login through and the store of users answers, a login for an
  -- unknown address and one with a wrong password get the same answer, 401 with no cookie, and
  -- leave the state that the lookup left but for the record of a failed login.
  pub login_hides_accounts :
      (event : EventDraw) (family : Uuid) (draw : RefreshToken.Draw) (now : Time)
      (headers : Headers) (body : CredentialsRequest) (stored : Option User) (s s1 s2 : S)
      → state.login_throttle (email_key body) s ≡ (true, s1)
      → state.users.find_by_email (email_key body) s1 ≡ (ok stored, s2)
      → opens body.password stored ≡ false
      → Auth.login state event family draw now headers body s
        ≡ record_security_event state
            (SecurityEvent.new event.id event.at login_failed none
              (client_ip state.library.to_str headers)
              (email_key body))
            (error_body 401 (codes "invalid credentials"))
            s2
  unfolding Auth.login LoginUser.execute
  login_hides_accounts event family draw now headers body none s s1 s2 t f h = rw (t, f)
  login_hides_accounts event family draw now headers body (some user) s s1 s2 t f h = rw (t, f, h)
