-- ===== src/Tests/Dialogs.antt =====
-- Examples of the dialogs: api/static/agents.js, api/static/cards.js, api/static/rooms.js.
use hufi_agents.Js.Text.{units}
use hufi_agents.OrgData.Errors.{translate, is_plain, not_started}
use hufi_agents.OrgData.Store.{err}
use hufi_agents.Dialogs.Project.{
  Draft, ProjectDialog, open_new_project, answer_project, refused_project,
}
use hufi_agents.Tests.Org.{with_relationships, store_of}
use hufi_agents.Prelude.{
  [], ◌∷◌, ◌++◌, if◌then◌else◌, some, ℕ, ◌≡◌, refl, true, false, ◌<◌, All, arith,
}
use hufi_agents.Js.Text.{units, trim, trim_start, trim_end, is_space}
use hufi_agents.Dialogs.Trap.{on_control, on_keydown, tab, press, tab_reaches}
use hufi_agents.Dialogs.Routine.{
  Form, day, week, monday, open_form, pick_kind, create, schedule_for, types_task, creates, picks,
  Reachable, opens, steps,
}
use hufi_agents.Dialogs.Weekly.{IsWeekly, no_daily_routine}
use hufi_agents.Cards.Schedule.{schedule_de}
use hufi_agents.Cards.Spelled.{chosen_de, schedule_de_lem}
use hufi_agents.Chat.Routine.Clock.{clock}
use hufi_agents.Agents.Slug.{slug}

tab_reaches_example :
    ((k : ℕ) × (k < 3) × (press false k (on_control 3 2) ≡ on_control 3 1))
    × (on_keydown (tab false) (on_keydown (tab true) (on_control 3 2)) ≡ on_control 3 2)
tab_reaches_example = tab_reaches 3 2 1 (omega arith) (omega arith)

abbrev filled : Form
filled = record (open_form "hufi_chief") { task = units "Bericht" }

-- A weekly routine is sent, then daily is chosen.
abbrev daily : Form
daily = pick_kind day (create filled)

daily-Reachable : Reachable "hufi_chief" daily
unfolding open_form create trim trim_start trim_end is_space
daily-Reachable =
    steps (steps (steps (opens "hufi_chief") (types_task (units "Bericht") refl)) (creates refl))
      (picks day refl)

no_daily_routine_example : All IsWeekly daily.requests × (daily.kind ≡ day → daily.is_shown ≡ false)
no_daily_routine_example = no_daily_routine daily-Reachable

schedule_de_lem_example :
    schedule_de (schedule_for week monday (clock 8 0))
    ≡ chosen_de week monday ++ (units " um " ++ (clock 8 0 ++ units " Uhr"))
schedule_de_lem_example = schedule_de_lem week monday 8 0 (omega arith) (omega arith)

slug_of_umlaut : slug (units "-Größe & Co. 2!") ≡ units "gr-e-co-2"
unfolding slug
slug_of_umlaut = refl

abbrev draft : Draft
draft = record { name = units "HufiApp"; description = [] }

abbrev submitted : ProjectDialog
submitted = record (open_new_project (store_of [])) { fields = draft; waiting = draft ∷ [] }

refused_project_example :
    answer_project (λ t. "HufiApp") 0 "" (err (units "unauthenticated")) submitted
    ≡ record submitted {
      waiting = [];
      message = some (
          units "Projekt konnte nicht angelegt werden: "
          ++ (if is_plain (translate (units "unauthenticated"))
              then translate (units "unauthenticated")
              else not_started));
    }
unfolding open_new_project
refused_project_example =
    refused_project (λ t. "HufiApp") 0 "" (units "unauthenticated") draft submitted
      (with_relationships []) refl refl refl
