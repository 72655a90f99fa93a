-- ===== src/InMemory/Users.antt =====
-- `InMemoryUserRepository`: the accounts.
use ai_agent_boilerplate.Prelude.{Bool, Option}
use ai_agent_boilerplate.Exec.{ok}
use ai_agent_boilerplate.Text.{Text, text_eq}
use ai_agent_boilerplate.Map
use ai_agent_boilerplate.Map.{Map, get, find_value, remove}
use ai_agent_boilerplate.Domain.{Uuid}
use ai_agent_boilerplate.Domain.User.{User}
use ai_agent_boilerplate.Ports.{Port}

abbrev pub Users : Type 0
Users = Map User

unfoldable pub insert : User → Port Users Unit
insert user s = (ok tt, Map.insert user.id user s)

abbrev pub has_email : Text → User → Bool
has_email email u = text_eq u.email email

unfoldable pub find_by_email : Text → Port Users (Option User)
find_by_email email s = (ok (find_value (has_email email) s), s)

unfoldable pub find_by_id : Uuid → Port Users (Option User)
find_by_id id s = (ok (get id s), s)

unfoldable pub delete : Uuid → Port Users Unit
delete id s = (ok tt, remove id s)
