-- ===== src/Http/Auth/Cookies.antt =====
-- The session's cookie, from the response that sets it to the request that sends it back.
use ai_agent_boilerplate.Prelude.{
  ℕ, ◌≡◌, refl, ap, Bool, true, false, not, ◌&&◌, Option, some, [], ◌∷◌, ◌++◌, arith, ◌==◌, all,
}
use ai_agent_boilerplate.Text.{
  codes, Text, trim, trim_start, trim_end, is_whitespace, is_empty, text_eq,
}
use ai_agent_boilerplate.Text.Decimal.{decimal}
use ai_agent_boilerplate.Http.Headers.{
  read_refresh_cookie, Bytes, Headers, header, split, first_part, refresh_cookie, session_cookie,
  refresh_cookie_name, cookie_pairs, find_pair,
}

-- A character that a session's token may have.
abbrev pub is_token_char : ℕ → Bool
is_token_char c = not (c == b';') && not (is_whitespace c)

split_clean : (s : Text) → all is_token_char s ≡ true → split b';' s ≡ s ∷ []
unfolding split
split_clean [] h = refl
split_clean (c ∷ s) h = ground (arith, split_clean s)

split_before :
    (s rest : Text)
    → all is_token_char s ≡ true
    → split b';' (s ++ (b';' ∷ rest)) ≡ s ∷ split b';' rest
unfolding split
split_before [] rest h = refl
split_before (c ∷ s) rest h = ground (arith, split_before s rest)

trim_end_clean : (s : Text) → all is_token_char s ≡ true → trim_end s ≡ s
unfolding trim_end
trim_end_clean [] h = refl
trim_end_clean (c ∷ s) h = ground (arith, trim_end_clean s)

abbrev pub kept : Text → Text
kept value = refresh_cookie_name ++ (b'=' ∷ value)

first_kept :
    (value : Text) (age : ℕ)
    → all is_token_char value ≡ true
    → first_part (split b';' (refresh_cookie value age)) ≡ some (kept value)
unfolding refresh_cookie split is_whitespace
first_kept value age h = ap first_part (
    split_before (kept value)
      (codes " HttpOnly; Secure; SameSite=Strict; Path=/api/auth; Max-Age=" ++ decimal age) h)

session_cookie-kept :
    (value : Text)
    → all is_token_char value ≡ true
    → is_empty value ≡ false
    → session_cookie (kept value) ≡ some value
unfolding session_cookie cookie_pairs find_pair trim trim_start text_eq is_whitespace split
session_cookie-kept value h n = rw (split_clean value h, trim_end_clean value h, n)

-- The name and value that a browser keeps of the session's cookie, sent back in a cookie header
-- that decodes to them, read as the token that the response set, where the token is not empty
-- and has no white space and no semicolon.
pub read-refresh_cookie :
    (to_str : Bytes → Option Text) (headers : Headers) (value : Text) (age : ℕ) (bytes : Bytes)
    → all is_token_char value ≡ true
    → is_empty value ≡ false
    → header (codes "cookie") headers ≡ some bytes
    → to_str bytes ≡ first_part (split b';' (refresh_cookie value age))
    → read_refresh_cookie to_str headers ≡ some value
unfolding read_refresh_cookie
read-refresh_cookie to_str headers value age bytes clean nonempty sent decoded =
    rw (sent, decoded, first_kept value age clean) (session_cookie-kept value clean nonempty)
