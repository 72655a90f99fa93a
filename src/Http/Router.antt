-- ===== src/Http/Router.antt =====
-- The router: which handler a route reaches, and behind which limiter. A request is what axum's
-- extractors make of it: its headers, the peer's address, and its route with the parsed path and
-- body, and what the handler draws of the clock and of the random source.
pub mod Guards
pub mod Worker
use ai_agent_boilerplate.Prelude.{Bool, true, false, Option, List}
use ai_agent_boilerplate.Text.{Text, codes}
use ai_agent_boilerplate.Domain.{Uuid, Time}
use ai_agent_boilerplate.Domain.RefreshToken
use ai_agent_boilerplate.Domain.Document.{NewChunk}
use ai_agent_boilerplate.Application
use ai_agent_boilerplate.Application.RefreshSession.{Moment}
use ai_agent_boilerplate.Http.Headers.{Headers, client_key}
use ai_agent_boilerplate.Http.Views.{respond, error_body, plain}
use ai_agent_boilerplate.Http.State.{AppState, Handler, EventDraw, finish}
use ai_agent_boilerplate.Http.Auth
use ai_agent_boilerplate.Http.Auth.{CredentialsRequest}
use ai_agent_boilerplate.Http.Account
use ai_agent_boilerplate.Http.Account.{CreateChannelRequest}
use ai_agent_boilerplate.Http.Documents
use ai_agent_boilerplate.Http.Documents.{CreateDocumentRequest, RetrieveRequest}
use ai_agent_boilerplate.Http.Searches
use ai_agent_boilerplate.Http.Searches.{CreateSearchRequest}
use ai_agent_boilerplate.Http.Recurring
use ai_agent_boilerplate.Http.Recurring.{CreateRecurringRequest}
use ai_agent_boilerplate.Http.Internal
use ai_agent_boilerplate.Http.Internal.{Callback}

pub data AuthRoute : Type 0 where
  register : Uuid → Time → CredentialsRequest → AuthRoute
  login : EventDraw → Uuid → RefreshToken.Draw → Time → CredentialsRequest → AuthRoute
  refresh : Moment → AuthRoute
  logout : AuthRoute

pub data ApiRoute : Type 0 where
  create_search : EventDraw → Time → Application.Draw → CreateSearchRequest → ApiRoute
  list_searches : ApiRoute
  get_search : Uuid → ApiRoute
  answer_search : Time → Uuid → Text → ApiRoute
  search_events : Uuid → ApiRoute
  create_recurring : Uuid → Time → CreateRecurringRequest → ApiRoute
  list_recurring : ApiRoute
  delete_recurring : Uuid → ApiRoute
  get_profile : ApiRoute
  delete_account : ApiRoute
  create_channel : Uuid → Time → CreateChannelRequest → ApiRoute
  delete_channel : Uuid → ApiRoute
  create_document : Uuid → Time → CreateDocumentRequest → ApiRoute
  list_documents : ApiRoute
  delete_document : Uuid → ApiRoute

pub data InternalRoute : Type 0 where
  job_callback : Uuid → Callback → InternalRoute
  store_chunks : Uuid → List NewChunk → InternalRoute
  document_failure : Uuid → Text → InternalRoute
  retrieve : RetrieveRequest → InternalRoute

pub data Route : Type 0 where
  healthz readyz : Route
  auth : AuthRoute → Route
  api : ApiRoute → Route
  internal : InternalRoute → Route

pub record Request : Type 0 where
  pub headers : Headers
  pub peer : Option Text
  pub route : Route

-- The two limiters are their `allow`.
pub record Router (S : Type 0) : Type 0 where
  pub state : AppState S
  pub auth_limiter : Text → S → Bool × S
  pub api_limiter : Text → S → Bool × S

module _ {S : Type 0} where
  abbrev pub serve_auth : AppState S → Headers → AuthRoute → Handler S
  serve_auth state headers (register id now body) = Auth.register state id now body
  serve_auth state headers (login event family draw now body) =
      Auth.login state event family draw now headers body
  serve_auth state headers (refresh moment) = Auth.refresh state moment headers
  serve_auth state headers logout = Auth.logout state headers

  abbrev pub serve_api : AppState S → Headers → ApiRoute → Handler S
  serve_api state headers (create_search event clock draw body) =
      Searches.create_search state event clock draw headers body
  serve_api state headers list_searches = Searches.list_searches state headers
  serve_api state headers (get_search id) = Searches.get_search state headers id
  serve_api state headers (answer_search now id text) =
      Searches.answer_search state now headers id text
  serve_api state headers (search_events id) = Searches.search_events state headers id
  serve_api state headers (create_recurring id now body) =
      Recurring.create_recurring state id now headers body
  serve_api state headers list_recurring = Recurring.list_recurring state headers
  serve_api state headers (delete_recurring id) = Recurring.delete_recurring state headers id
  serve_api state headers get_profile = Account.get_profile state headers
  serve_api state headers delete_account = Auth.delete_account state headers
  serve_api state headers (create_channel id now body) =
      Account.create_channel state id now headers body
  serve_api state headers (delete_channel id) = Account.delete_channel state headers id
  serve_api state headers (create_document id now body) =
      Documents.create_document state id now headers body
  serve_api state headers list_documents = Documents.list_documents state headers
  serve_api state headers (delete_document id) = Documents.delete_document state headers id

  abbrev pub serve_internal : AppState S → Headers → InternalRoute → Handler S
  serve_internal state headers (job_callback id callback) =
      Internal.internal state id headers callback
  serve_internal state headers (store_chunks id chunks) =
      Documents.internal_store_chunks state id headers chunks
  serve_internal state headers (document_failure id error) =
      Documents.internal_document_failure state id headers error
  serve_internal state headers (retrieve body) = Documents.internal_retrieve state headers body

  -- The middleware `rate_limit`.
  abbrev pub limited : Bool → Handler S → Handler S
  limited true next = next
  limited false next = finish (error_body 429 (codes "too many requests, slow down"))

  unfoldable pub rate_limit : (Text → S → Bool × S) → AppState S → Request → Handler S → Handler S
  rate_limit allow state request next s =
      let asked = allow (client_key state.library.to_str request.headers request.peer) s in
      limited asked.0 next asked.1

  abbrev pub serve_route : Router S → Request → Route → Handler S
  serve_route router request healthz = finish (respond 200 (plain (codes "ok")))
  serve_route router request readyz = Internal.readyz router.state
  serve_route router request (auth route) =
      rate_limit router.auth_limiter router.state request
        (serve_auth router.state request.headers route)
  serve_route router request (api route) =
      rate_limit router.api_limiter router.state request
        (serve_api router.state request.headers route)
  serve_route router request (internal route) = serve_internal router.state request.headers route

  unfoldable pub serve : Router S → Request → Handler S
  unfolding rate_limit
  serve router request = serve_route router request request.route
