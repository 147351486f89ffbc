-- ===== src/Chat/Routine/Schedule.antt =====
-- The schedule and the label of a detected routine: `detectRoutineIntent` of api/static/chat.js
-- beside `scheduleLabelDe` of api/static/agents.js.
use hufi_agents.Prelude.{
  ℕ, ◌+◌, ◌/◌, ◌%◌, ◌<◌, ◌≡◌, refl, sym, Bool, true, [], ◌∷◌, ◌++◌, Option, none, some, arith,
}
use hufi_agents.Js.Text.{Text, units}
use hufi_agents.Js.Regex.{run}
use hufi_agents.Js.Regex.Patterns.{is_digit}
use hufi_agents.Js.Regex.Search.{search, exec}
use hufi_agents.Agents.Schedule.{schedule_label_de}
use hufi_agents.Chat.Routine.{
  Weekday, monday, tuesday, wednesday, thursday, friday, saturday, sunday, clear, schedule_day,
  schedule_of, label_of, cadence_of, decide_intent, detect_routine_intent,
}
use hufi_agents.Chat.Routine.Clock.{clock, IsClock, extract_time_de-IsClock}

abbrev Spelled : Option Weekday → ℕ → ℕ → ℕ → ℕ → Type 0
Spelled day a b c d =
    schedule_label_de (schedule_of day (a ∷ b ∷ b':' ∷ c ∷ d ∷ []))
    ≡ label_of day (a ∷ b ∷ b':' ∷ c ∷ d ∷ [])

module _ (a b c d : ℕ) (ha : is_digit a ≡ true) (hb : is_digit b ≡ true) (hc : is_digit c ≡ true)
    (hd : is_digit d ≡ true) where
  Spelled-day : (day : Weekday) → Spelled (some day) a b c d
  unfolding schedule_label_de exec
  Spelled-day monday = rw (ha, hb, hc, hd, schedule_label_de, exec, search, run)
  Spelled-day other = rw (ha, hb, hc, hd, schedule_label_de, exec, search, run)

  Spelled-label : (day : Option Weekday) → Spelled day a b c d
  unfolding schedule_label_de exec
  Spelled-label none = rw (ha, hb, hc, hd, schedule_label_de, exec, search, run)
  Spelled-label (some day) = Spelled-day day

digit_of : (k : ℕ) → k < 10 → is_digit (b'0' + k) ≡ true
unfolding is_digit
digit_of k h = ground arith

-- The agent panel's label of a schedule for a time of day.
label_of-clock :
    (day : Option Weekday) (h m : ℕ)
    → h < 24
    → m < 60
    → schedule_label_de (schedule_of day (clock h m)) ≡ label_of day (clock h m)
label_of-clock day h m hb mb =
    Spelled-label _ _ _ _ (digit_of (h / 10) (omega arith)) (digit_of (h % 10) (omega arith))
      (digit_of (m / 10) (omega arith)) (digit_of (m % 10) (omega arith)) day

-- The days of the backend's grammar, `every <day> at HH:MM`.
abbrev pub backend_day : Option Weekday → Text
backend_day none = units "day"
backend_day (some monday) = units "monday"
backend_day (some tuesday) = units "tuesday"
backend_day (some wednesday) = units "wednesday"
backend_day (some thursday) = units "thursday"
backend_day (some friday) = units "friday"
backend_day (some saturday) = units "saturday"
backend_day (some sunday) = units "sunday"

-- How the user is told how often a routine for this day runs.
abbrev pub how_often : Option Weekday → Text
how_often none = units "tägliche"
how_often (some day) = units "wöchentliche"

schedule_day-backend : (day : Option Weekday) → schedule_day day ≡ backend_day day
schedule_day-backend none = refl
schedule_day-backend (some monday) = refl
schedule_day-backend (some tuesday) = refl
schedule_day-backend (some wednesday) = refl
schedule_day-backend (some thursday) = refl
schedule_day-backend (some friday) = refl
schedule_day-backend (some saturday) = refl
schedule_day-backend (some sunday) = refl

cadence_of-how_often : (day : Option Weekday) → cadence_of day ≡ how_often day
cadence_of-how_often none = refl
cadence_of-how_often (some day) = refl

-- What makes a detected routine right: a day, a time of day, the schedule in the backend's words,
-- the label that the agent panel gives that schedule, and the right word for how often it runs.
pub record IsRoutine (schedule label cadence : Text) : Type 0 where
  pub day : Option Weekday
  pub hour : ℕ
  pub minute : ℕ
  pub hour_bound : hour < 24
  pub minute_bound : minute < 60
  pub schedule_spelled :
      schedule ≡ units "every " ++ (backend_day day ++ (units " at " ++ clock hour minute))
  pub label_agrees : label ≡ schedule_label_de schedule
  pub cadence_agrees : cadence ≡ how_often day

IsRoutine-clear :
    (day : Option Weekday) (t : Text)
    → IsClock t
    → IsRoutine (schedule_of day t) (label_of day t) (cadence_of day)
IsRoutine-clear day t k = record {
  day = day;
  hour = k.hour;
  minute = k.minute;
  hour_bound = k.hour_bound;
  minute_bound = k.minute_bound;
  schedule_spelled = rw (k.spelled, schedule_day-backend day) refl;
  label_agrees =
      rw k.spelled (sym (label_of-clock day k.hour k.minute k.hour_bound k.minute_bound));
  cadence_agrees = cadence_of-how_often day;
}

decided_clear :
    (day : Option Weekday) (daily weekly monthly tomorrow : Bool) (time : Option Text)
    (s l c : Text)
    → decide_intent day daily weekly monthly tomorrow time ≡ some (clear s l c)
    → (t : Text) × (time ≡ some t)
      × (s ≡ schedule_of day t)
      × (l ≡ label_of day t)
      × (c ≡ cadence_of day)
unfolding decide_intent
decided_clear day daily weekly monthly tomorrow none s l c h = ground arith
decided_clear day daily weekly monthly tomorrow (some t) s l c h =
    (t, refl, ground arith, ground arith, ground arith)

-- Whatever the message, a routine that is offered for creation has a schedule of the backend's
-- grammar for some day and time of day, its label is the one that the agent panel derives from that
-- schedule, and it is called daily or weekly as the schedule has no weekday or has one.
pub detect_routine_intent-IsRoutine :
    (text s l c : Text) → detect_routine_intent text ≡ some (clear s l c) → IsRoutine s l c
unfolding detect_routine_intent
detect_routine_intent-IsRoutine text s l c h =
    let (t, e, es, el, ec) = decided_clear _ _ _ _ _ _ s l c h in
    rw (es, el, ec) (IsRoutine-clear _ t (extract_time_de-IsClock _ t e))
