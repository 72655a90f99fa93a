-- ===== src/Config/Examples.antt =====
-- The theorem on the configuration, at a production environment.
use ai_agent_boilerplate.Prelude.{◌≡◌, refl, some}
use ai_agent_boilerplate.Text.{Text, codes, text_eq}
use ai_agent_boilerplate.Config.{config_of, from_lookup, missing_required}
use ai_agent_boilerplate.Config.Fixtures.{environment}
use ai_agent_boilerplate.Config.Startup.{IsReal, production_checks}

production_checks_example :
    let config = config_of environment in
    IsReal (environment (codes "JWT_SECRET")) config.jwt_secret
    × IsReal (environment (codes "INTERNAL_API_TOKEN")) config.internal_token
    × ((url : Text) × (config.database_url ≡ some url)
        × IsReal (environment (codes "DATABASE_URL")) url)
    × ((url : Text) × (config.agent_api_url ≡ some url)
        × IsReal (environment (codes "AGENT_API_URL")) url)
unfolding text_eq from_lookup missing_required
production_checks_example = production_checks environment (config_of environment) refl refl
