-- ===== src/Chat/Routine.antt =====
-- Routine detection in api/static/chat.js: which German sentences are a recurring task, and which
-- schedule they stand for.
pub mod Clock
pub mod Schedule
use hufi_agents.Prelude.{
  ℕ, ◌-◌, String, Bool, true, false, not, ◌&&◌, ◌||◌, List, [], ◌∷◌, ◌++◌, Option, none, some, leb,
  ltb, ◌==◌, if◌then◌else◌, length, is_some, or_else,
}
use hufi_agents.Js.Text.{Text, units, to_lower_case}
use hufi_agents.Js.Regex.{Regex, boundary, unit, seq, alt, star, group, not_ahead, Cursor}
use hufi_agents.Js.Regex.Patterns.{chr, lit, opt, plus, digit, space, seqs, alts}
use hufi_agents.Js.Regex.Search.{test, exec, capture}

pub data Weekday : Type 0 where
  monday tuesday wednesday thursday friday saturday sunday : Weekday

-- The English name, as the schedule grammar writes it.
abbrev pub weekday_en : Weekday → String
weekday_en monday = "monday"
weekday_en tuesday = "tuesday"
weekday_en wednesday = "wednesday"
weekday_en thursday = "thursday"
weekday_en friday = "friday"
weekday_en saturday = "saturday"
weekday_en sunday = "sunday"

-- `WEEKDAYS_DE_EN`, in the order of its keys
abbrev pub weekdays_de_en : List (String × Weekday)
weekdays_de_en =
    ("montag", monday)
    ∷ ("montags", monday)
    ∷ ("dienstag", tuesday)
    ∷ ("dienstags", tuesday)
    ∷ ("mittwoch", wednesday)
    ∷ ("mittwochs", wednesday)
    ∷ ("donnerstag", thursday)
    ∷ ("donnerstags", thursday)
    ∷ ("freitag", friday)
    ∷ ("freitags", friday)
    ∷ ("samstag", saturday)
    ∷ ("samstags", saturday)
    ∷ ("sonnabend", saturday)
    ∷ ("sonnabends", saturday)
    ∷ ("sonntag", sunday)
    ∷ ("sonntags", sunday)
    ∷ []

-- `WEEKDAY_LABEL_DE`
abbrev pub weekday_label_de : Weekday → String
weekday_label_de monday = "montags"
weekday_label_de tuesday = "dienstags"
weekday_label_de wednesday = "mittwochs"
weekday_label_de thursday = "donnerstags"
weekday_label_de friday = "freitags"
weekday_label_de saturday = "samstags"
weekday_label_de sunday = "sonntags"

-- `String(n).padStart(2, '0')` of a text that is already printed
unfoldable pub pad2 : Text → Text
pad2 [] = b'0' ∷ b'0' ∷ []
pad2 (c ∷ []) = b'0' ∷ c ∷ []
pad2 (c ∷ d ∷ r) = c ∷ d ∷ r

-- `([01]?\d|2[0-3])`
abbrev pub hour : Regex
hour =
    alt (seq (opt (unit (λ x. x == b'0' || x == b'1'))) digit)
      (seq (chr b'2') (unit (λ x. leb b'0' x && leb x b'3')))

abbrev pub separator : Regex
separator = unit (λ x. x == b':' || x == b'.')

abbrev pub minute : Regex
minute = seq (unit (λ x. leb b'0' x && leb x b'5')) digit

-- `\b([01]?\d|2[0-3])[:.]([0-5]\d)\s*(?:uhr)?\b`
abbrev pub time_exact : Regex
time_exact = seqs (
    boundary
    ∷ group 1 hour
    ∷ separator
    ∷ group 2 minute
    ∷ star space
    ∷ opt (lit "uhr")
    ∷ boundary
    ∷ [])

-- `\b([01]?\d|2[0-3])\s*uhr\b`
abbrev pub time_uhr : Regex
time_uhr = seqs (boundary ∷ group 1 hour ∷ star space ∷ lit "uhr" ∷ boundary ∷ [])

-- `\bum\s+([01]?\d|2[0-3])\b(?!\s*[:.]\d)`
abbrev pub time_um : Regex
time_um = seqs (
    boundary
    ∷ lit "um"
    ∷ plus space
    ∷ group 1 hour
    ∷ boundary
    ∷ not_ahead (seqs (star space ∷ separator ∷ digit ∷ []))
    ∷ [])

-- `m[i]` of a group that took part in the match
abbrev pub group_text : ℕ → Cursor → Text
group_text i m = or_else (capture i m) []

abbrev pub exact_time : Cursor → Text
exact_time m = pad2 (group_text 1 m) ++ (b':' ∷ group_text 2 m)

abbrev pub full_hour : Cursor → Text
full_hour m = pad2 (group_text 1 m) ++ units ":00"

unfoldable pub extract_time_de : Text → Option Text
unfolding pad2
extract_time_de s = elim (exec time_exact s) [
  | some m ↦ some (exact_time m)
  | none ↦ elim (exec time_uhr s) [
    | some m ↦ some (full_hour m)
    | none ↦ elim (exec time_um s) [ some m ↦ some (full_hour m) | none ↦ none ]
  ]
]

pub data Intent : Type 0 where
  unsupported : (message : Text) → Intent
  clarify : (question : Text) → Intent
  clear : (schedule label cadence : Text) → Intent

-- `\bword\b`
abbrev pub whole_word : Regex → Regex
whole_word r = seq boundary (seq r boundary)

-- The loop over the keys: the first one that stands in the text as a word.
unfoldable pub weekday_in : List (String × Weekday) → Text → Option Weekday
weekday_in [] s = none
weekday_in ((word, day) ∷ r) s = if test (whole_word (lit word)) s then some day else weekday_in r s

-- `\b(t(ä|ae)glich|jeden tag|jeden morgen|jeden abend)\b`
abbrev pub daily_pattern : Regex
daily_pattern = whole_word (
    alts (seqs (chr b't' ∷ alt (lit "ä") (lit "ae") ∷ lit "glich" ∷ []))
      (lit "jeden tag" ∷ lit "jeden morgen" ∷ lit "jeden abend" ∷ []))

-- `\b(jede woche|w(ö|oe)chentlich)\b`
abbrev pub weekly_pattern : Regex
weekly_pattern =
    whole_word
      (alt (lit "jede woche") (seqs (chr b'w' ∷ alt (lit "ö") (lit "oe") ∷ lit "chentlich" ∷ [])))

abbrev pub monthly_pattern : Regex
monthly_pattern = whole_word (alt (lit "jeden monat") (lit "monatlich"))

-- `\bmorgen\s+um\b`
abbrev pub tomorrow_pattern : Regex
tomorrow_pattern = whole_word (seqs (lit "morgen" ∷ plus space ∷ lit "um" ∷ []))

abbrev pub every_morning_pattern : Regex
every_morning_pattern = whole_word (lit "jeden morgen")

abbrev pub monthly_message : Text
monthly_message =
    units
      "Monatliche Routinen kann ich in dieser Version noch nicht einrichten — nur täglich oder an einem festen Wochentag. Sag mir gern einen festen Wochentag, zum Beispiel „jeden Montag um 8 Uhr“."

abbrev pub tomorrow_message : Text
tomorrow_message =
    units
      "Einzelne Aufträge kann ich aktuell nur sofort ausführen, noch nicht für einen späteren Zeitpunkt vormerken. Soll ich das gleich jetzt erledigen, oder meintest du eine wiederkehrende Routine, zum Beispiel „jeden Montag um 8 Uhr“?"

abbrev pub which_day : Text
which_day =
    units
      "Das klingt nach einer wiederkehrenden Aufgabe — an welchem Wochentag soll ich das erledigen? Zum Beispiel „jeden Montag um 8 Uhr“."

abbrev pub which_time : Text
which_time = units "Gerne richte ich das als Routine ein — um wie viel Uhr soll ich das erledigen?"

-- `every <day> at HH:MM`; without a weekday the day is `day`.
abbrev pub schedule_day : Option Weekday → Text
schedule_day none = units "day"
schedule_day (some d) = units (weekday_en d)

abbrev pub schedule_of : Option Weekday → Text → Text
schedule_of d time = units "every " ++ (schedule_day d ++ (units " at " ++ time))

abbrev pub label_of : Option Weekday → Text → Text
label_of none time = units "täglich um " ++ time
label_of (some d) time = units (weekday_label_de d) ++ (units " um " ++ time)

abbrev pub cadence_of : Option Weekday → Text
cadence_of none = units "tägliche"
cadence_of (some _) = units "wöchentliche"

-- The chain of tests, over the signals that the text gives.
unfoldable pub decide_intent :
    Option Weekday → (daily weekly monthly tomorrow : Bool) → Option Text → Option Intent
decide_intent weekday daily weekly monthly tomorrow time =
    if monthly
    then some (unsupported monthly_message)
    else if tomorrow
    then some (unsupported tomorrow_message)
    else if weekly && not (is_some weekday)
    then some (clarify which_day)
    else if is_some weekday || daily
    then elim time [
      | none ↦ some (clarify which_time)
      | some t ↦ some (clear (schedule_of weekday t) (label_of weekday t) (cadence_of weekday))
    ]
    else none

unfoldable pub detect_routine_intent : Text → Option Intent
detect_routine_intent text =
    let s = to_lower_case text in
    decide_intent (weekday_in weekdays_de_en s) (test daily_pattern s) (test weekly_pattern s)
      (test monthly_pattern s) (test tomorrow_pattern s && not (test every_morning_pattern s))
      (extract_time_de s)
