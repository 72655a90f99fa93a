-- ===== src/Domain/Job/Examples.antt =====
-- One job of the test suite: asked, answered, timed out, and completed late.
use ai_agent_boilerplate.Prelude.{◌≡◌, refl, none, some, List, [], ◌∷◌}
use ai_agent_boilerplate.Exec.{ok}
use ai_agent_boilerplate.Text.{codes, trim}
use ai_agent_boilerplate.Domain.{now_utc}
use ai_agent_boilerplate.Domain.Job.{ResearchJob, fresh_job, new, completed, with_mode, agent}
use ai_agent_boilerplate.Domain.Job.Lifecycle.{
  JobEvent, started, completed_at, failed_with, asked, answered, apply, apply_all, IsValid,
  lifecycle-IsValid,
}
use ai_agent_boilerplate.Domain.Job.Graph.{completed_absorbs}

abbrev dialog : List JobEvent
dialog =
    started
    ∷ asked (codes "Animal or car?")
    ∷ answered (codes " the car ")
    ∷ started
    ∷ failed_with (codes "timed out") 7000
    ∷ completed_at 9000
    ∷ []

abbrev rust_job : ResearchJob
rust_job = fresh_job 1 5999 2 (codes "rust async")

new_trims : new 1 5999 2 (codes "  rust async  ") ≡ ok rust_job
unfolding new trim
new_trims = refl

dialog_result :
    let j = apply_all dialog rust_job in
    (j.status ≡ completed)
    × (j.error ≡ none)
    × (j.answer ≡ some (codes "the car"))
    × (j.created_at ≡ 5000)
unfolding apply_all apply trim now_utc
dialog_result = (refl, refl, refl, refl)

lifecycle-IsValid_example :
    IsValid (apply_all dialog (record (with_mode agent rust_job) { recurring_search_id = some 4 }))
lifecycle-IsValid_example =
    lifecycle-IsValid 1 5999 2 (codes "  rust async  ") agent (some 4) dialog new_trims

abbrev done : ResearchJob
done = record rust_job { status = completed; completed_at = some 5000 }

completed_absorbs_example :
    ((apply_all dialog done).status ≡ completed)
    × ((apply_all dialog done).error ≡ none)
    × ((apply_all dialog done).question ≡ none)
    × ((apply_all dialog done).answer ≡ none)
completed_absorbs_example = completed_absorbs dialog done refl refl
