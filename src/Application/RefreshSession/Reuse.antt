-- ===== src/Application/RefreshSession/Reuse.antt =====
-- Rotation with reuse detection (ADR-056), over the in-memory stack.
use ai_agent_boilerplate.Prelude.{
  ℕ, ◌+◌, ◌≡◌, refl, ◌∙◌, Bool, true, false, not, none, some, arith, ◌==◌, length, length-append,
}
use ai_agent_boilerplate.Text.{Text, text_eq}
use ai_agent_boilerplate.Exec.{Result, ok, err}
use ai_agent_boilerplate.Map
use ai_agent_boilerplate.Map.{Map, get, find_value, modify, retain, AllEntries}
use ai_agent_boilerplate.Map.Laws.{retain_passes, get-modify}
use ai_agent_boilerplate.Map.Unique.{IsUnique}
use ai_agent_boilerplate.Map.Keyed.{IsKeyed, find_value-modify, find_value-insert}
use ai_agent_boilerplate.Domain.{Uuid}
use ai_agent_boilerplate.Domain.RefreshToken.{
  RefreshToken, is_consumed, is_expired, issue_in_family,
}
use ai_agent_boilerplate.Ports.{TokenService}
use ai_agent_boilerplate.InMemory.Tokens
use ai_agent_boilerplate.InMemory.Tokens.{Tokens, has_hash, consume}
use ai_agent_boilerplate.InMemory.Audit
use ai_agent_boilerplate.InMemory.World.{World, token_repository, audit_log}
use ai_agent_boilerplate.Application.LoginUser.{SessionTokens}
use ai_agent_boilerplate.Application.RefreshSession.{RefreshError, invalid_token, Moment, rotate}

-- Not of this family.
abbrev pub outside_family : Uuid → Uuid → RefreshToken → Bool
outside_family family _ t = not (t.family_id == family)

module _ {X : Type 0} (hash : Text → Text) (family_text : Uuid → Text) (tokens : TokenService)
    (ttl_days : ℕ) where
  unfoldable pub turn : Moment → Text → World X → Result RefreshError SessionTokens × World X
  turn m presented = rotate hash family_text token_repository tokens audit_log ttl_days m presented

  -- A replayed token is refused, its whole family is gone, and no other token changes.
  pub replay_revokes :
      (m : Moment) (presented : Text) (stored : RefreshToken) (w : World X)
      → find_value (has_hash (hash presented)) w.tokens ≡ some stored
      → is_consumed stored ≡ true
      → let r = turn m presented w in
        (r.0 ≡ err invalid_token)
        × (r.1.tokens ≡ retain (outside_family stored.family_id) w.tokens)
        × AllEntries (λ k t. outside_family stored.family_id k t ≡ true) r.1.tokens
        × (length r.1.audit ≡ length w.audit + 1)
  unfolding turn rotate Tokens.find_by_hash Tokens.delete_family Audit.record_event
  replay_revokes m presented stored w f c =
      rw (f, c)
        (
          refl,
          refl,
          retain_passes (outside_family stored.family_id) w.tokens,
          length-append w.audit _,
        )

  -- A live token rotates into a new one of its family and is kept, marked consumed.
  pub rotate_live :
      (m : Moment) (presented access : Text) (stored : RefreshToken) (w : World X)
      → find_value (has_hash (hash presented)) w.tokens ≡ some stored
      → is_consumed stored ≡ false
      → is_expired m.checked stored ≡ false
      → tokens.issue stored.user_id ≡ ok access
      → let r = turn m presented w in
        let next = issue_in_family hash m.draw m.issued stored.user_id stored.family_id ttl_days in
        (r.0 ≡ ok (record { access_token = access; refresh_token = m.draw.plaintext }))
        × (r.1.tokens
            ≡ Map.insert m.draw.id next.0 (modify stored.id (consume m.consumed) w.tokens))
  unfolding turn rotate Tokens.find_by_hash Tokens.mark_consumed Tokens.insert issue_in_family
  rotate_live m presented access stored w f c x i = rw (f, c, x, i) (refl, refl)

  found_again :
      (m : Moment) (presented access : Text) (stored : RefreshToken) (w : World X)
      → IsUnique w.tokens
      → IsKeyed (λ t. t.id) w.tokens
      → find_value (has_hash (hash presented)) w.tokens ≡ some stored
      → get m.draw.id w.tokens ≡ none
      → text_eq (hash m.draw.plaintext) (hash presented) ≡ false
      → let next = issue_in_family hash m.draw m.issued stored.user_id stored.family_id ttl_days in
        find_value
          (has_hash (hash presented))
          (Map.insert m.draw.id next.0 (modify stored.id (consume m.consumed) w.tokens))
        ≡ some (consume m.consumed stored)
  unfolding issue_in_family
  found_again m presented access stored w u k f fresh other =
      let next = issue_in_family hash m.draw m.issued stored.user_id stored.family_id ttl_days in
      let marked = modify stored.id (consume m.consumed) w.tokens in
      find_value-insert (has_hash (hash presented)) m.draw.id next.0 marked other
        (get-modify stored.id m.draw.id (consume m.consumed) w.tokens ∙ rw fresh (ground arith))
      ∙ find_value-modify (λ t. t.id) (has_hash (hash presented)) (consume m.consumed) stored
          w.tokens (λ v. refl) u k f

  -- Once a live token has been rotated into a token with a fresh identifier and another hash,
  -- presenting the old token again is refused and leaves no token of its family, the one that
  -- the first rotation issued included.
  pub reuse_revokes_family :
      (m m' : Moment) (presented access : Text) (stored : RefreshToken) (w : World X)
      → IsUnique w.tokens
      → IsKeyed (λ t. t.id) w.tokens
      → find_value (has_hash (hash presented)) w.tokens ≡ some stored
      → is_consumed stored ≡ false
      → is_expired m.checked stored ≡ false
      → tokens.issue stored.user_id ≡ ok access
      → get m.draw.id w.tokens ≡ none
      → text_eq (hash m.draw.plaintext) (hash presented) ≡ false
      → let first = turn m presented w in
        let second = turn m' presented first.1 in
        (first.0 ≡ ok (record { access_token = access; refresh_token = m.draw.plaintext }))
        × (second.0 ≡ err invalid_token)
        × AllEntries (λ k t. outside_family stored.family_id k t ≡ true) second.1.tokens
  reuse_revokes_family m m' presented access stored w u k f c x i fresh other =
      let live = rotate_live m presented access stored w f c x i in
      let found = found_again m presented access stored w u k f fresh other in
      let replay =
        replay_revokes m' presented (consume m.consumed stored) (turn m presented w).1
          (rw live.1 found) (unfold is_consumed in refl) in
      (live.0, replay.0, replay.2)
