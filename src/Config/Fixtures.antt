-- ===== src/Config/Fixtures.antt =====
-- A production environment with its four required variables.
use ai_agent_boilerplate.Prelude.{Option, none, some, if◌then◌else◌}
use ai_agent_boilerplate.Text.{Text, codes, text_eq}

abbrev pub environment : Text → Option Text
environment name =
    if text_eq name (codes "APP_ENV")
    then some (codes "production")
    else if text_eq name (codes "JWT_SECRET")
    then some (codes "an unguessable key")
    else if text_eq name (codes "INTERNAL_API_TOKEN")
    then some (codes "s3cret")
    else if text_eq name (codes "DATABASE_URL")
    then some (codes "postgres://db")
    else if text_eq name (codes "AGENT_API_URL")
    then some (codes "http://agent")
    else none
