-- ===== src/InMemory/Tokens.antt =====
-- `InMemoryRefreshTokenRepository`: the refresh tokens.
use ai_agent_boilerplate.Prelude.{ℕ, ◌-◌, Bool, not, Option, some, ◌==◌, length}
use ai_agent_boilerplate.Exec.{ok}
use ai_agent_boilerplate.Text.{Text, text_eq}
use ai_agent_boilerplate.Map
use ai_agent_boilerplate.Map.{Map, find_value, retain, modify, remove}
use ai_agent_boilerplate.Domain.{Uuid, Time}
use ai_agent_boilerplate.Domain.RefreshToken.{RefreshToken, is_expired}
use ai_agent_boilerplate.Ports.{Port}

abbrev pub Tokens : Type 0
Tokens = Map RefreshToken

unfoldable pub insert : RefreshToken → Port Tokens Unit
insert token s = (ok tt, Map.insert token.id token s)

abbrev pub has_hash : Text → RefreshToken → Bool
has_hash hash t = text_eq t.token_hash hash

unfoldable pub find_by_hash : Text → Port Tokens (Option RefreshToken)
find_by_hash hash s = (ok (find_value (has_hash hash) s), s)

abbrev pub consume : Time → RefreshToken → RefreshToken
consume at t = record t { consumed_at = some at }

unfoldable pub mark_consumed : Uuid → Time → Port Tokens Unit
mark_consumed id at s = (ok tt, modify id (consume at) s)

unfoldable pub delete : Uuid → Port Tokens Unit
delete id s = (ok tt, remove id s)

unfoldable pub delete_family : Uuid → Port Tokens Unit
delete_family family_id s = (ok tt, retain (λ _ t. not (t.family_id == family_id)) s)

unfoldable pub delete_all_for_user : Uuid → Port Tokens ℕ
delete_all_for_user user_id s =
    let kept = retain (λ _ t. not (t.user_id == user_id)) s in (ok (length s - length kept), kept)

unfoldable pub delete_expired : Time → Port Tokens ℕ
delete_expired now s =
    let kept = retain (λ _ t. not (is_expired now t)) s in (ok (length s - length kept), kept)
