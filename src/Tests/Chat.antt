-- ===== src/Tests/Chat.antt =====
-- Examples of the chat: api/static/chat.js.
use hufi_agents.Prelude.{◌≡◌, refl, [], none, some, All}
use hufi_agents.Js.Text.{Text, units, to_lower_case, is_space}
use hufi_agents.Js.Regex.Patterns.{is_digit}
use hufi_agents.Js.Regex.Search.{exec, test, replace_all}
use hufi_agents.Chat.Routine.{
  clear, detect_routine_intent, decide_intent, weekday_in, extract_time_de,
}
use hufi_agents.Chat.Routine.Schedule.{IsRoutine, detect_routine_intent-IsRoutine}
use hufi_agents.Chat.Send.{Composer, handle_send, visible_redact}
use hufi_agents.Chat.Send.Confirmed.{
  empty_composer, fresh, next, types, sends, IsAllowed, Reachable-IsAllowed,
}

abbrev weekly_message : Text
weekly_message = units "Mach das jeden Montag um 8 Uhr."

monday_morning :
    detect_routine_intent weekly_message
    ≡ some (clear (units "every monday at 08:00") (units "montags um 08:00") (units "wöchentliche"))
unfolding detect_routine_intent decide_intent weekday_in extract_time_de to_lower_case exec test
    is_digit is_space
monday_morning = refl

detect_routine_intent-IsRoutine_example :
    IsRoutine (units "every monday at 08:00") (units "montags um 08:00") (units "wöchentliche")
detect_routine_intent-IsRoutine_example =
    detect_routine_intent-IsRoutine weekly_message (units "every monday at 08:00")
      (units "montags um 08:00") (units "wöchentliche") monday_morning

evening : extract_time_de (units "täglich um 18 uhr 30") ≡ some (units "18:00")
unfolding extract_time_de exec is_digit is_space
evening = refl

abbrev typed : Composer
typed = record empty_composer { input = units "Tagesbericht" }

Reachable-IsAllowed_example : All (IsAllowed []) (handle_send typed).turns
Reachable-IsAllowed_example =
    Reachable-IsAllowed {c = handle_send typed} {chosen = []}
      (next {o = none} (next {o = none} fresh (types (units "Tagesbericht"))) sends)

redacts : visible_redact (units "token: abc123 ok") ≡ units "token: [REDACTED] ok"
unfolding visible_redact is_space is_digit replace_all
redacts = refl
