-- ===== src/Startup/Tokens.antt =====
-- From the environment to the guard of the worker's routes.
use ai_agent_boilerplate.Prelude.{
  ◌≡◌, refl, sym, ap, ◌∙◌, inl, inr, true, ◌||◌, Option, none, some, [], ◌∷◌, arith, ltb,
  Bool-cases, all,
}
use ai_agent_boilerplate.Text.{text_eq, text_eq→≡, Text, codes, is_empty}
use ai_agent_boilerplate.Exec.{ok}
use mathlib.Core.Path.{subst}
use ai_agent_boilerplate.Text.Utf8.{as_bytes, IsAscii, all-IsAscii, as_bytes_ascii, ascii_bytes}
use ai_agent_boilerplate.Http.Headers.{Bytes, header}
use ai_agent_boilerplate.Http.Router.{Request, InternalRoute, internal, serve}
use ai_agent_boilerplate.Http.Router.Guards.{no_token, internal_refused}
use ai_agent_boilerplate.Config.{AppConfig, from_lookup, is_text, is_placeholder}
use ai_agent_boilerplate.Config.Startup.{production_checks}
use ai_agent_boilerplate.Startup.{Environment, router_of}

bytes_or : Bytes → Option Bytes → Bytes
bytes_or default none = default
bytes_or default (some t) = t

-- The development tokens are ASCII.
refused-IsAscii : (token : Text) → (is_empty token || is_placeholder token) ≡ true → IsAscii token
refused-IsAscii [] p = tt
refused-IsAscii (c ∷ token) p = elim (Bool-cases (text_eq (c ∷ token) (codes "change-me"))) [
  | inl first ↦ ascii (codes "change-me") refl (text_eq→≡ (c ∷ token) (codes "change-me") first)
  | inr other ↦
      ascii (codes "insecure-dev-secret") refl
        (text_eq→≡ (c ∷ token) (codes "insecure-dev-secret") (ground (arith, p, other)))
]
  where
    ascii : (b : Text) → all (λ c. ltb c 0x80) b ≡ true → c ∷ token ≡ b → IsAscii (c ∷ token)
    ascii b h e = subst IsAscii (sym e) (all-IsAscii b h)

-- A text in the bytes of an ASCII one is that text.
same_token : (a b : Text) → IsAscii b → as_bytes a ≡ as_bytes b → a ≡ b
same_token a b h e =
    let b_bytes = as_bytes_ascii b h in
    ascii_bytes a (subst IsAscii (sym (e ∙ b_bytes)) h) ∙ e ∙ b_bytes

-- A backend started in production answers a request to a route under /internal/ whose internal
-- token is empty or a development placeholder with 401, and changes nothing.
pub placeholder_refused :
    {S : Type 0} (environment : Environment S) (lookup : Text → Option Text) (config : AppConfig)
    (request : Request) (route : InternalRoute) (token : Text) (s : S)
    → is_text (codes "production") (lookup (codes "APP_ENV")) ≡ true
    → from_lookup lookup ≡ ok config
    → request.route ≡ internal route
    → header (codes "x-internal-token") request.headers ≡ some (as_bytes token)
    → (is_empty token || is_placeholder token) ≡ true
    → serve (router_of environment config) request s ≡ (no_token, s)
unfolding router_of bytes_or
placeholder_refused environment lookup config request route token s production started r h p =
    let checked = production_checks lookup config production started in
    internal_refused (router_of environment config) request route s r (λ e.
      let same =
        same_token config.internal_token token (refused-IsAscii token p)
          (ap (bytes_or (as_bytes token)) (sym e ∙ h)) in
      absurd (
        ground
          (arith, ap is_empty (sym same), ap is_placeholder (sym same), checked.1.1, checked.1.2)))
