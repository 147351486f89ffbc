-- ===== src/Cards/Schedule.antt =====
-- `scheduleDe` and the badge of a routine in api/static/cards.js.
use hufi_agents.Prelude.{
  String, Bool, List, [], ◌∷◌, ◌++◌, none, some, if◌then◌else◌, ◌=ˢ◌, or_else,
}
use hufi_agents.Js.Text.{Text, units, beq}
use hufi_agents.Js.Regex.Search.{exec, capture}
use hufi_agents.Agents.Names.{or_text}
use hufi_agents.Agents.Schedule.{schedule_pattern, property}

-- `ROUTINE_WEEKDAY_DE`
abbrev pub routine_weekday_de : List (String × String)
routine_weekday_de =
    ("monday", "Montag")
    ∷ ("tuesday", "Dienstag")
    ∷ ("wednesday", "Mittwoch")
    ∷ ("thursday", "Donnerstag")
    ∷ ("friday", "Freitag")
    ∷ ("saturday", "Samstag")
    ∷ ("sunday", "Sonntag")
    ∷ []

unfoldable pub schedule_de : Text → Text
unfolding property exec
schedule_de schedule = elim (exec schedule_pattern schedule) [
  | none ↦ or_text schedule (units "Kein Zeitplan hinterlegt.")
  | some m ↦
      let kind = or_else (capture 1 m) [] in
      let cadence =
        if beq kind (units "day")
        then units "Jeden Tag"
        else units "Jeden " ++ property routine_weekday_de kind in
      cadence
      ++ (units " um "
          ++ (or_else (capture 2 m) [] ++ (b':' ∷ (or_else (capture 3 m) [] ++ units " Uhr"))))
]

pub record RoutineBadge : Type 0 where
  pub tone : String
  pub text : String

-- `routineStatusBadge`
unfoldable pub routine_status_badge : (status : String) (enabled : Bool) → RoutineBadge
routine_status_badge status enabled =
    if status =ˢ "archived"
    then record { tone = "tone-idle"; text = "Archiviert" }
    else if enabled
    then record { tone = "tone-ok"; text = "Aktiv" }
    else record { tone = "tone-warn"; text = "Pausiert" }
