-- ===== src/Http/Router/Guards.antt =====
-- Who may reach a handler.
use ai_agent_boilerplate.Prelude.{
  ℕ, ◌≡◌, refl, ap, ◌≢◌, inl, inr, Bool, false, Option, none, some, if◌then◌else◌, Bool-cases,
}
use ai_agent_boilerplate.Text.{codes}
use ai_agent_boilerplate.Http.Headers.{
  Bytes, Headers, header, client_key, matches, has_internal_token, constant_time_eq, bearer_token,
}
use ai_agent_boilerplate.Http.Tokens.{constant_time_eq_lem}
use ai_agent_boilerplate.Http.Views.{Response, error_body}
use ai_agent_boilerplate.Http.State.{AppState, Handler, user_of, with_user, with_internal_token}
use ai_agent_boilerplate.Http.Auth
use ai_agent_boilerplate.Http.Account
use ai_agent_boilerplate.Http.Documents
use ai_agent_boilerplate.Http.Searches
use ai_agent_boilerplate.Http.Recurring
use ai_agent_boilerplate.Http.Internal
use ai_agent_boilerplate.Http.Router.{
  Router, Request, serve, rate_limit, api, internal, ApiRoute, InternalRoute, serve_api,
  serve_internal, job_callback, store_chunks, document_failure, retrieve, create_search,
  list_searches, get_search, answer_search, search_events, create_recurring, list_recurring,
  delete_recurring, get_profile, delete_account, create_channel, delete_channel, create_document,
  list_documents, delete_document,
}

matches-false : (token : Bytes) (o : Option Bytes) → o ≢ some token → matches token o ≡ false
matches-false token none h = refl
matches-false token (some value) h = elim (Bool-cases (constant_time_eq value token)) [
  | inl same ↦ absurd (h (ap some ((constant_time_eq_lem value token).0 same)))
  | inr differ ↦ differ
]

abbrev internal_header : Headers → Option Bytes
internal_header headers = header (codes "x-internal-token") headers

abbrev pub no_token : Response
no_token = error_body 401 (codes "invalid or missing internal token")

abbrev pub too_many : Response
too_many = error_body 429 (codes "too many requests, slow down")

abbrev pub no_user : Response
no_user = error_body 401 (codes "invalid or missing access token")

-- What the limiter of the routes for users answers.
abbrev pub limit : {S : Type 0} → Router S → Request → S → Bool × S
limit router request s =
    router.api_limiter (client_key router.state.library.to_str request.headers request.peer) s

module _ {S : Type 0} (state : AppState S) where
  with_internal_token-refused :
      (headers : Headers) (k : Handler S) (s : S)
      → internal_header headers ≢ some state.internal_token
      → with_internal_token state headers k s ≡ (no_token, s)
  unfolding with_internal_token has_internal_token
  with_internal_token-refused headers k s h =
      rw (matches-false state.internal_token (internal_header headers) h)

  with_internal_token-admitted :
      (headers : Headers) (k : Handler S) (s : S)
      → internal_header headers ≡ some state.internal_token
      → with_internal_token state headers k s ≡ k s
  unfolding with_internal_token has_internal_token
  with_internal_token-admitted headers k s h =
      rw (h, (constant_time_eq_lem state.internal_token state.internal_token).1 refl)

  serve_internal-refused :
      (headers : Headers) (route : InternalRoute) (s : S)
      → internal_header headers ≢ some state.internal_token
      → serve_internal state headers route s ≡ (no_token, s)
  unfolding Internal.internal Documents.internal_store_chunks Documents.internal_document_failure
      Documents.internal_retrieve
  serve_internal-refused headers (job_callback id callback) s h =
      with_internal_token-refused headers _ s h
  serve_internal-refused headers (store_chunks id chunks) s h =
      with_internal_token-refused headers _ s h
  serve_internal-refused headers (document_failure id error) s h =
      with_internal_token-refused headers _ s h
  serve_internal-refused headers (retrieve body) s h = with_internal_token-refused headers _ s h

  with_user-refused :
      (headers : Headers) (k : ℕ → Handler S) (s : S)
      → user_of state (bearer_token state.library.to_str headers) ≡ none
      → with_user state headers k s ≡ (no_user, s)
  unfolding with_user
  with_user-refused headers k s h = rw h

  serve_api-refused :
      (headers : Headers) (route : ApiRoute) (s : S)
      → user_of state (bearer_token state.library.to_str headers) ≡ none
      → serve_api state headers route s ≡ (no_user, s)
  unfolding Searches.create_search Searches.list_searches Searches.get_search Searches.answer_search
      Searches.search_events Recurring.create_recurring Recurring.list_recurring
      Recurring.delete_recurring Account.get_profile Auth.delete_account Account.create_channel
      Account.delete_channel Documents.create_document Documents.list_documents
      Documents.delete_document
  serve_api-refused headers (create_search event clock draw body) s h =
      with_user-refused headers _ s h
  serve_api-refused headers list_searches s h = with_user-refused headers _ s h
  serve_api-refused headers (get_search id) s h = with_user-refused headers _ s h
  serve_api-refused headers (answer_search now id text) s h = with_user-refused headers _ s h
  serve_api-refused headers (search_events id) s h = with_user-refused headers _ s h
  serve_api-refused headers (create_recurring id now body) s h = with_user-refused headers _ s h
  serve_api-refused headers list_recurring s h = with_user-refused headers _ s h
  serve_api-refused headers (delete_recurring id) s h = with_user-refused headers _ s h
  serve_api-refused headers get_profile s h = with_user-refused headers _ s h
  serve_api-refused headers delete_account s h = with_user-refused headers _ s h
  serve_api-refused headers (create_channel id now body) s h = with_user-refused headers _ s h
  serve_api-refused headers (delete_channel id) s h = with_user-refused headers _ s h
  serve_api-refused headers (create_document id now body) s h = with_user-refused headers _ s h
  serve_api-refused headers list_documents s h = with_user-refused headers _ s h
  serve_api-refused headers (delete_document id) s h = with_user-refused headers _ s h

-- A request to a route under /internal/ whose internal token header is missing or is not the
-- configured token, byte for byte, is answered 401 and changes nothing.
pub internal_refused :
    {S : Type 0} (router : Router S) (request : Request) (route : InternalRoute) (s : S)
    → request.route ≡ internal route
    → header (codes "x-internal-token") request.headers ≢ some router.state.internal_token
    → serve router request s ≡ (no_token, s)
unfolding serve
internal_refused router request route s r h =
    rw r (serve_internal-refused router.state request.headers route s h)

-- Without an access token that the token service knows, every route for users is answered 401,
-- or 429 where the limiter refuses the client, and changes nothing but the limiter's state.
pub api_refused :
    {S : Type 0} (router : Router S) (request : Request) (route : ApiRoute) (s : S)
    → request.route ≡ api route
    → user_of router.state (bearer_token router.state.library.to_str request.headers) ≡ none
    → serve router request s
      ≡ (if (limit router request s).0 then no_user else too_many, (limit router request s).1)
unfolding serve rate_limit
api_refused router request route s r h = rw r (elim (Bool-cases (limit router request s).0) [
  | inl allowed ↦ rw allowed (serve_api-refused router.state request.headers route _ h)
  | inr refused ↦ rw refused
])
