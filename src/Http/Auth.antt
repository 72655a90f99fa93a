-- ===== src/Http/Auth.antt =====
-- The handlers of accounts' sessions: register, login, refresh, logout, and account deletion.
pub mod Login
pub mod Cookies
use ai_agent_boilerplate.Prelude.{◌*◌, Bool, true, false, Option, none, some}
use ai_agent_boilerplate.Text.{Text, codes, trim}
use ai_agent_boilerplate.Exec.{Result, ok, err}
use ai_agent_boilerplate.Domain.{Uuid, Time}
use ai_agent_boilerplate.Domain.User.{User}
use ai_agent_boilerplate.Domain.RefreshToken
use ai_agent_boilerplate.Domain.SecurityEvent
use ai_agent_boilerplate.Domain.SecurityEvent.{SecurityEventKind, login_throttled, login_failed}
use ai_agent_boilerplate.Ports.{PortError}
use ai_agent_boilerplate.Application.RegisterUser
use ai_agent_boilerplate.Application.RegisterUser.{
  RegisterError, email_taken, invalid_email, password_too_short,
}
use ai_agent_boilerplate.Application.LoginUser
use ai_agent_boilerplate.Application.LoginUser.{LoginError, SessionTokens, invalid_credentials}
use ai_agent_boilerplate.Application.RefreshSession
use ai_agent_boilerplate.Application.RefreshSession.{RefreshError, invalid_token, Moment}
use ai_agent_boilerplate.Application.DeleteAccount
use ai_agent_boilerplate.Http.Headers.{
  Headers, client_ip, read_refresh_cookie, refresh_cookie, clear_refresh_cookie,
}
use ai_agent_boilerplate.Http.Views.{
  Response, respond, error_body, internal_error, no_body, access_token, account,
}
use ai_agent_boilerplate.Http.State.{
  AppState, Handler, EventDraw, finish, handle, answer, record_security_event, with_user,
}

pub record CredentialsRequest : Type 0 where
  pub email : Text
  pub password : Text

abbrev pub registered : Result RegisterError User → Response
registered (ok user) = respond 201 (account user.id user.email)
registered (err email_taken) = error_body 409 (codes "email already registered")
registered (err invalid_email) = error_body 422 (codes "invalid email address")
registered (err password_too_short) =
    error_body 422 (codes "password must be at least 8 characters")
registered (err (RegisterUser.infrastructure e)) = internal_error

abbrev pub deleted_account : Result PortError Unit → Response
deleted_account (ok _) = record {
  status = 204;
  set_cookie = some clear_refresh_cookie;
  body = no_body;
}
deleted_account (err e) = internal_error

module _ {S : Type 0} (state : AppState S) where
  unfoldable pub register : Uuid → Time → CredentialsRequest → Handler S
  register id now body =
      answer
        (RegisterUser.execute state.library.lowercase state.users state.hasher id now body.email
          body.password)
        registered

  unfoldable pub session_response : SessionTokens → Response
  session_response tokens = record {
    status = 200;
    set_cookie = some (refresh_cookie tokens.refresh_token (state.refresh_ttl_days * 86_400));
    body = access_token tokens.access_token;
  }

  abbrev pub login_event : EventDraw → SecurityEventKind → Headers → Text → Response → Handler S
  login_event event kind headers email_key = record_security_event state (
      SecurityEvent.new event.id event.at kind none (client_ip state.library.to_str headers)
        email_key)

  abbrev pub logged_in : EventDraw → Headers → Text → Result LoginError SessionTokens → Handler S
  logged_in event headers email_key (ok tokens) = finish (session_response tokens)
  logged_in event headers email_key (err invalid_credentials) =
      login_event event login_failed headers email_key
        (error_body 401 (codes "invalid credentials"))
  logged_in event headers email_key (err (LoginUser.infrastructure e)) = finish internal_error

  -- What the use case draws of the environment: a family, a token and the time of issue.
  abbrev pub login_user :
      Uuid → RefreshToken.Draw → Time → CredentialsRequest → S → Result LoginError SessionTokens × S
  login_user family draw now body =
      LoginUser.execute state.library.lowercase state.library.hash state.users state.hasher
        state.tokens state.refresh_tokens state.refresh_ttl_days family draw now body.email
        body.password

  abbrev pub throttled : EventDraw → Headers → Text → Bool → (S → Response × S) → Handler S
  throttled event headers email_key true k = k
  throttled event headers email_key false k =
      login_event event login_throttled headers email_key
        (error_body 429 (codes "too many login attempts, slow down"))

  unfoldable pub login :
      EventDraw → Uuid → RefreshToken.Draw → Time → Headers → CredentialsRequest → Handler S
  unfolding session_response
  login event family draw now headers body s =
      let email_key = state.library.lowercase (trim body.email) in
      let allowed = state.login_throttle email_key s in
      throttled event headers email_key allowed.0
        (handle (login_user family draw now body) (logged_in event headers email_key)) allowed.1

  abbrev pub refreshed : Result RefreshError SessionTokens → Response
  refreshed (ok tokens) = session_response tokens
  refreshed (err invalid_token) =
      record (error_body 401 (codes "invalid or expired refresh token")) {
        set_cookie = some clear_refresh_cookie;
      }
  refreshed (err (RefreshSession.infrastructure e)) = internal_error

  abbrev pub refresh_with : Moment → Option Text → Handler S
  refresh_with moment none = finish (error_body 401 (codes "missing refresh token"))
  refresh_with moment (some presented) =
      answer
        (RefreshSession.rotate state.library.hash state.library.family_text state.refresh_tokens
          state.tokens state.audit state.refresh_ttl_days moment presented)
        refreshed

  unfoldable pub refresh : Moment → Headers → Handler S
  unfolding session_response
  refresh moment headers = refresh_with moment (read_refresh_cookie state.library.to_str headers)

  abbrev pub logged_out : Response
  logged_out = record { status = 204; set_cookie = some clear_refresh_cookie; body = no_body }

  -- A failed revocation is logged and dropped.
  abbrev pub logout_with : Option Text → Handler S
  logout_with none = finish logged_out
  logout_with (some presented) =
      answer
        (RefreshSession.revoke state.library.hash state.library.family_text state.refresh_tokens
          state.tokens state.audit state.refresh_ttl_days presented)
        (λ _. logged_out)

  unfoldable pub logout : Headers → Handler S
  logout headers = logout_with (read_refresh_cookie state.library.to_str headers)

  unfoldable pub delete_account : Headers → Handler S
  delete_account headers = with_user state headers λ user_id.
      answer
        (DeleteAccount.execute state.users state.jobs state.recurring state.refresh_tokens
          state.channels state.documents user_id)
        deleted_account
