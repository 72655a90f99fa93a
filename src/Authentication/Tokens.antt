-- ===== src/Authentication/Tokens.antt =====
-- The life of an access token.
use ai_agent_boilerplate.Prelude.{
  ℕ, ◌+◌, ◌≡◌, inl, inr, Option, none, some, leb, if◌then◌else◌, Bool-cases,
}
use ai_agent_boilerplate.Text.{Text}
use ai_agent_boilerplate.Exec.{Result, ok}
use ai_agent_boilerplate.Domain.{Uuid, Time, minutes}
use ai_agent_boilerplate.Authentication.{Claims, claims_of, issue, verify}

-- The leeway of `Validation::default`, in seconds.
abbrev pub leeway : ℕ
leeway = 60

module _ (encode : Text → Claims → Result Text Text) (decode : Text → ℕ → Text → Option Claims)
    (uuid_text : Uuid → Text) (parse_uuid : Text → Option Uuid) (timestamp : Time → ℕ)
    -- Claims are signed, and the signature opens under its secret until they expire.
    (signs : (secret : Text) (claims : Claims) → (token : Text) × (encode secret claims ≡ ok token))
    (opens : (secret : Text) (claims : Claims) (token : Text) (now : ℕ)
      → encode secret claims ≡ ok token
      → decode secret now token ≡ (if leb now (claims.exp + leeway) then some claims else none))
    (parses : (id : Uuid) → parse_uuid (uuid_text id) ≡ some id) where
  -- An access token that the service issues verifies to its user until its expiry and a leeway
  -- of a minute, and to nobody after it, where claims are signed and open under their secret
  -- until they expire and an identifier is read back from its text.
  pub issued-verify :
      (secret : Text) (ttl_minutes : ℕ) (issued_at verified_at : Time) (user_id : Uuid)
      → (token : Text) × (issue encode decode uuid_text parse_uuid timestamp secret ttl_minutes
            issued_at user_id
          ≡ ok token)
        × (verify encode decode uuid_text parse_uuid timestamp secret ttl_minutes verified_at token
            ≡ (if leb (timestamp verified_at) (timestamp (issued_at + minutes ttl_minutes) + leeway)
                then some user_id
                else none))
  unfolding issue verify
  issued-verify secret ttl_minutes issued_at verified_at user_id =
      let claims =
        claims_of encode decode uuid_text parse_uuid timestamp secret ttl_minutes issued_at
          user_id in
      let signed = signs secret claims in
      let opened = opens secret claims signed.0 (timestamp verified_at) signed.1 in
      (
        signed.0,
        rw signed.1,
        rw opened (elim (Bool-cases (leb (timestamp verified_at) (claims.exp + leeway))) [
          | inl live ↦ rw (live, parses user_id)
          | inr expired ↦ rw expired
        ]),
      )
