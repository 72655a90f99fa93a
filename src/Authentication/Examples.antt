-- ===== src/Authentication/Examples.antt =====
-- A token of fifteen minutes, with a codec that writes the claims out.
use ai_agent_boilerplate.Prelude.{
  ℕ, ◌+◌, ◌/◌, ◌≡◌, refl, ap, Option, none, some, [], ◌∷◌, leb, if◌then◌else◌,
}
use ai_agent_boilerplate.Text.{Text, codes}
use ai_agent_boilerplate.Exec.{Result, ok, err}
use ai_agent_boilerplate.Domain.{Uuid, minutes}
use ai_agent_boilerplate.Authentication.{Claims, issue, verify}
use ai_agent_boilerplate.Authentication.Tokens.{leeway, issued-verify}

abbrev write : Text → Claims → Result Text Text
write secret claims = ok (claims.iat ∷ claims.exp ∷ claims.sub)

abbrev read : Text → ℕ → Text → Option Claims
read secret now [] = none
read secret now (iat ∷ []) = none
read secret now (iat ∷ exp ∷ sub) =
    if leb now (exp + leeway) then some (record { sub = sub; iat = iat; exp = exp }) else none

abbrev first : Text → Option Uuid
first [] = none
first (c ∷ s) = some c

abbrev token_of : Result Text Text → Text
token_of (ok t) = t
token_of (err e) = e

opens_written :
    (secret : Text) (claims : Claims) (token : Text) (now : ℕ)
    → write secret claims ≡ ok token
    → read secret now token ≡ (if leb now (claims.exp + leeway) then some claims else none)
opens_written secret claims token now h = rw (← ap token_of h)

issued-verify_example :
    (token : Text) × (issue write read
        (λ id. id ∷ [])
        first
        (λ t. t / minutes 1)
        (codes "key")
        15
        (minutes 5)
        7
      ≡ ok token)
    × (verify write read
          (λ id. id ∷ [])
          first
          (λ t. t / minutes 1)
          (codes "key")
          15
          (minutes 9)
          token
        ≡ some 7)
issued-verify_example =
    issued-verify write read (λ id. id ∷ []) first (λ t. t / minutes 1)
      (λ secret claims. (claims.iat ∷ claims.exp ∷ claims.sub, refl)) opens_written (λ id. refl)
      (codes "key") 15 (minutes 5) (minutes 9) 7
