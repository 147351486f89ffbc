-- ===== src/Cards/Spelled.antt =====
-- How api/static/cards.js and api/static/agents.js tell the schedules that the dialogs send.
use hufi_agents.Prelude.{ℕ, ◌+◌, ◌/◌, ◌%◌, ◌<◌, ◌≡◌, true, [], ◌∷◌, ◌++◌, arith}
use hufi_agents.Js.Text.{Text, units}
use hufi_agents.Js.Regex.{run}
use hufi_agents.Js.Regex.Patterns.{is_digit}
use hufi_agents.Js.Regex.Search.{search, exec}
use hufi_agents.Chat.Routine.Clock.{clock}
use hufi_agents.Dialogs.Routine.{
  Kind, day, week, Weekday, monday, tuesday, wednesday, thursday, friday, saturday, sunday,
  schedule_for,
}
use hufi_agents.Cards.Schedule.{schedule_de}

-- The German words for what was chosen in the dialog.
abbrev pub day_de : Weekday → Text
day_de monday = units "Montag"
day_de tuesday = units "Dienstag"
day_de wednesday = units "Mittwoch"
day_de thursday = units "Donnerstag"
day_de friday = units "Freitag"
day_de saturday = units "Samstag"
day_de sunday = units "Sonntag"

abbrev pub chosen_de : Kind → Weekday → Text
chosen_de day d = units "Jeden Tag"
chosen_de week d = units "Jeden " ++ day_de d

abbrev Spelled : Kind → Weekday → ℕ → ℕ → ℕ → ℕ → Type 0
Spelled k w a b c d =
    schedule_de (schedule_for k w (a ∷ b ∷ b':' ∷ c ∷ d ∷ []))
    ≡ chosen_de k w ++ (units " um " ++ ((a ∷ b ∷ b':' ∷ c ∷ d ∷ []) ++ units " Uhr"))

module _ (a b c d : ℕ) (ha : is_digit a ≡ true) (hb : is_digit b ≡ true) (hc : is_digit c ≡ true)
    (hd : is_digit d ≡ true) where
  Spelled-week : (w : Weekday) → Spelled week w a b c d
  unfolding schedule_de
  Spelled-week monday = rw (ha, hb, hc, hd, schedule_de, exec, search, run)
  Spelled-week other = rw (ha, hb, hc, hd, schedule_de, exec, search, run)

  Spelled-any : (k : Kind) (w : Weekday) → Spelled k w a b c d
  unfolding schedule_de
  Spelled-any day w = rw (ha, hb, hc, hd, schedule_de, exec, search, run)
  Spelled-any week w = Spelled-week w

digit_of : (k : ℕ) → k < 10 → is_digit (b'0' + k) ≡ true
unfolding is_digit
digit_of k h = ground arith

-- The schedule that a dialog sends for a kind, a day and a time of day is told in German by exactly
-- these three.
pub schedule_de_lem :
    (k : Kind) (w : Weekday) (h m : ℕ)
    → h < 24
    → m < 60
    → schedule_de (schedule_for k w (clock h m))
      ≡ chosen_de k w ++ (units " um " ++ (clock h m ++ units " Uhr"))
schedule_de_lem k w h m hb mb =
    Spelled-any _ _ _ _ (digit_of (h / 10) (omega arith)) (digit_of (h % 10) (omega arith))
      (digit_of (m / 10) (omega arith)) (digit_of (m % 10) (omega arith)) k w
