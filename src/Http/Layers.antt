-- ===== src/Http/Layers.antt =====
-- backend/src/adapters/http/request_id.rs and security_headers.rs: the layers around the router,
-- which add headers to every response. The spans and the metrics are left out.
use ai_agent_boilerplate.Prelude.{
  ℕ, Bool, not, ◌&&◌, Option, none, some, List, [], ◌∷◌, leb, if◌then◌else◌, all,
}
use ai_agent_boilerplate.Text.{Text, codes, trim, is_empty, byte_len, text_eq}
use ai_agent_boilerplate.Http.Headers.{Bytes, Headers, header}
use ai_agent_boilerplate.Http.Views.{Response}
use ai_agent_boilerplate.Http.Router.{Router, Request, serve}

-- A response with the headers that the layers add.
pub record Layered : Type 0 where
  pub response : Response
  pub headers : List (Text × Text)

-- `HeaderMap::insert` replaces the values under the name.
unfoldable pub remove_header : Text → List (Text × Text) → List (Text × Text)
remove_header name [] = []
remove_header name ((n, v) ∷ headers) =
    let rest = remove_header name headers in if text_eq n name then rest else (n, v) ∷ rest

unfoldable pub insert_header : Text → Text → Layered → Layered
unfolding remove_header
insert_header name value r = record r { headers = (name, value) ∷ remove_header name r.headers }

abbrev pub is_ascii_graphic : ℕ → Bool
is_ascii_graphic c = leb 0x21 c && leb c 0x7e

abbrev pub sane_id : Text → Option Text
sane_id value =
    if not (is_empty value) && (leb (byte_len value) 128 && all is_ascii_graphic value)
    then some value
    else none

abbrev pub request_id_header : Text
request_id_header = codes "x-request-id"

module _ (to_str : Bytes → Option Text) where
  abbrev pub decoded_id : Option Text → Option Text
  decoded_id none = none
  decoded_id (some value) = sane_id (trim value)

  abbrev pub id_of : Option Bytes → Option Text
  id_of none = none
  id_of (some value) = decoded_id (to_str value)

  unfoldable pub incoming_id : Headers → Option Text
  incoming_id headers = id_of (header request_id_header headers)

  abbrev pub id_or : Text → Option Text → Text
  id_or fresh none = fresh
  id_or fresh (some id) = id

  -- `fresh` is the text of a new `Uuid`. An identifier is visible ASCII, which a header may hold.
  unfoldable pub request_id : Text → Headers → Layered → Layered
  unfolding incoming_id insert_header
  request_id fresh headers r = insert_header request_id_header (id_or fresh (incoming_id headers)) r

unfoldable pub security_headers : Layered → Layered
unfolding insert_header
security_headers r =
    insert_header (codes "content-security-policy")
      (codes "default-src 'none'; frame-ancestors 'none'")
      (insert_header (codes "referrer-policy") (codes "no-referrer") (
        insert_header (codes "x-frame-options") (codes "DENY")
          (insert_header (codes "x-content-type-options") (codes "nosniff") r)))

abbrev pub bare : Response → Layered
bare response = record { response = response; headers = [] }

-- The router inside its layers.
unfoldable pub serve_layered : {S : Type 0} → Router S → Text → Request → S → Layered × S
unfolding request_id security_headers
serve_layered router fresh request s =
    let answered = serve router request s in
    (
      security_headers
          (request_id router.state.library.to_str fresh request.headers (bare answered.0)),
      answered.1,
    )
