-- ===== src/Http/Headers.antt =====
-- What the handlers read of a request's headers. A `HeaderMap` is the list of its headers, with
-- lower-case names, and a value is its bytes.
use ai_agent_boilerplate.Prelude.{
  ℕ, Bool, false, not, Option, none, some, List, [], ◌∷◌, ◌++◌, ◌==◌, if◌then◌else◌, length,
}
use ai_agent_boilerplate.Text.{Text, codes, trim, is_empty, split_once, text_eq}
use ai_agent_boilerplate.Text.Decimal.{decimal}
use Prim.Native.Nat.{bit_or, bit_xor}

abbrev pub Bytes : Type 0
Bytes = List ℕ

abbrev pub Headers : Type 0
Headers = List (Text × Bytes)

-- `HeaderMap::get`: the first value under the name.
unfoldable pub header : Text → Headers → Option Bytes
header name [] = none
header name ((n, value) ∷ headers) = if text_eq n name then some value else header name headers

-- `split(c)`: at least one part.
abbrev pub glue : ℕ → List Text → List Text
glue c [] = (c ∷ []) ∷ []
glue c (part ∷ parts) = (c ∷ part) ∷ parts

unfoldable pub split : ℕ → Text → List Text
split sep [] = [] ∷ []
split sep (c ∷ s) = let rest = split sep s in if c == sep then [] ∷ rest else glue c rest

abbrev pub first_part : List Text → Option Text
first_part [] = none
first_part (part ∷ parts) = some part

abbrev pub filter_nonempty : Option Text → Option Text
filter_nonempty none = none
filter_nonempty (some t) = if is_empty t then none else some t

abbrev pub trimmed : Option Text → Option Text
trimmed none = none
trimmed (some t) = some (trim t)

-- `strip_prefix`
unfoldable pub strip_prefix : Text → Text → Option Text
strip_prefix [] s = some s
strip_prefix (p ∷ ps) [] = none
strip_prefix (p ∷ ps) (c ∷ s) = if c == p then strip_prefix ps s else none

abbrev pub refresh_cookie_name : Text
refresh_cookie_name = codes "refresh_token"

-- The pairs of the `Cookie` header: a part without `=` is dropped.
abbrev pub cons_pair : Option (Text × Text) → List (Text × Text) → List (Text × Text)
cons_pair none pairs = pairs
cons_pair (some pair) pairs = pair ∷ pairs

unfoldable pub cookie_pairs : List Text → List (Text × Text)
cookie_pairs [] = []
cookie_pairs (part ∷ parts) = cons_pair (split_once b'=' (trim part)) (cookie_pairs parts)

unfoldable pub find_pair : Text → List (Text × Text) → Option Text
find_pair name [] = none
find_pair name ((n, value) ∷ pairs) = if text_eq n name then some value else find_pair name pairs

-- The session's cookie in the text of a `Cookie` header.
unfoldable pub session_cookie : Text → Option Text
session_cookie cookies =
    filter_nonempty (find_pair refresh_cookie_name (cookie_pairs (split b';' cookies)))

-- `format!` of the `Set-Cookie` value.
unfoldable pub refresh_cookie : Text → ℕ → Text
refresh_cookie value max_age_seconds =
    refresh_cookie_name
    ++ (codes "="
        ++ (value
            ++ (codes "; HttpOnly; Secure; SameSite=Strict; Path=/api/auth; Max-Age="
                ++ decimal max_age_seconds)))

unfoldable pub clear_refresh_cookie : Text
unfolding refresh_cookie
clear_refresh_cookie = refresh_cookie [] 0

-- The loop of `constant_time_eq`, over the shorter of the two.
unfoldable pub differences : ℕ → Bytes → Bytes → ℕ
differences diff [] bs = diff
differences diff (a ∷ as') [] = diff
differences diff (a ∷ as') (b ∷ bs) = differences (bit_or diff (bit_xor a b)) as' bs

unfoldable pub constant_time_eq : Bytes → Bytes → Bool
unfolding differences
constant_time_eq a b = if not (length a == length b) then false else differences 0 a b == 0

-- `to_str` of the `http` crate, which fails where a byte is not visible ASCII.
module _ (to_str : Bytes → Option Text) where
  abbrev pub text_of : Option Bytes → Option Text
  text_of none = none
  text_of (some value) = to_str value

  abbrev pub first_address : Option Text → Option Text
  first_address none = none
  first_address (some value) = filter_nonempty (trimmed (first_part (split b',' value)))

  unfoldable pub client_ip : Headers → Option Text
  client_ip headers = first_address (text_of (header (codes "x-forwarded-for") headers))

  abbrev pub session_in : Option Text → Option Text
  session_in none = none
  session_in (some cookies) = session_cookie cookies

  unfoldable pub read_refresh_cookie : Headers → Option Text
  read_refresh_cookie headers = session_in (text_of (header (codes "cookie") headers))

  abbrev pub bearer_of : Option Text → Option Text
  bearer_of none = none
  bearer_of (some value) = strip_prefix (codes "Bearer ") value

  -- The access token of the `Authorization` header.
  unfoldable pub bearer_token : Headers → Option Text
  bearer_token headers = bearer_of (text_of (header (codes "authorization") headers))

  -- The key of the rate limiter; `peer` is the connection's address, printed.
  abbrev pub key_of : Option Text → Option Text → Text
  key_of (some address) peer = address
  key_of none (some peer) = peer
  key_of none none = codes "unknown"

  abbrev pub first_trimmed : Option Text → Option Text
  first_trimmed none = none
  first_trimmed (some value) = trimmed (first_part (split b',' value))

  unfoldable pub client_key : Headers → Option Text → Text
  client_key headers peer =
      key_of (first_trimmed (text_of (header (codes "x-forwarded-for") headers))) peer

abbrev pub matches : Bytes → Option Bytes → Bool
matches token none = false
matches token (some value) = constant_time_eq value token

-- The test of `check_internal_token`.
unfoldable pub has_internal_token : Bytes → Headers → Bool
unfolding header
has_internal_token token headers = matches token (header (codes "x-internal-token") headers)
