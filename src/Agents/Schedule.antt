-- ===== src/Agents/Schedule.antt =====
-- `scheduleLabelDe` of api/static/agents.js: the backend's schedule grammar in German.
use hufi_agents.Prelude.{String, List, [], ◌∷◌, ◌++◌, none, some, if◌then◌else◌, or_else}
use hufi_agents.Js.Text.{Text, units, beq}
use hufi_agents.Js.Regex.{Regex, start, finish, group}
use hufi_agents.Js.Regex.Patterns.{chr, lit, digit, seqs, alts, times}
use hufi_agents.Js.Regex.Search.{exec, capture}

-- `^every (day|monday|…|sunday) at (\d{2}):(\d{2})$`
abbrev pub schedule_pattern : Regex
schedule_pattern = seqs (
    start
    ∷ lit "every "
    ∷ group 1 (
        alts (lit "day") (
          lit "monday"
          ∷ lit "tuesday"
          ∷ lit "wednesday"
          ∷ lit "thursday"
          ∷ lit "friday"
          ∷ lit "saturday"
          ∷ lit "sunday"
          ∷ []))
    ∷ lit " at "
    ∷ group 2 (times 2 digit)
    ∷ chr b':'
    ∷ group 3 (times 2 digit)
    ∷ finish
    ∷ [])

-- A property of an object literal; a missing one is printed as `undefined`.
unfoldable pub property : List (String × String) → Text → Text
property [] k = units "undefined"
property ((j, v) ∷ r) k = if beq (units j) k then units v else property r k

-- `ROUTINE_WEEKDAY_DE`
abbrev pub routine_weekday_de : List (String × String)
routine_weekday_de =
    ("monday", "montags")
    ∷ ("tuesday", "dienstags")
    ∷ ("wednesday", "mittwochs")
    ∷ ("thursday", "donnerstags")
    ∷ ("friday", "freitags")
    ∷ ("saturday", "samstags")
    ∷ ("sunday", "sonntags")
    ∷ []

unfoldable pub schedule_label_de : Text → Text
unfolding property
schedule_label_de schedule = elim (exec schedule_pattern schedule) [
  | none ↦ schedule
  | some m ↦
      let kind = or_else (capture 1 m) [] in
      let cadence =
        if beq kind (units "day") then units "täglich" else property routine_weekday_de kind in
      cadence ++ (units " um " ++ (or_else (capture 2 m) [] ++ (b':' ∷ or_else (capture 3 m) [])))
]
