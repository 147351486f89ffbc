-- ===== src/Chat/Start.antt =====
-- Starting a turn in api/static/chat.js: what the reply bubble says in `startTurn` and
-- `startRoutineTurn`, and the routine's buttons.
use hufi_agents.Prelude.{
  ℕ, String, Bool, true, false, ◌||◌, List, ◌++◌, Option, none, some, ◌=ˢ◌, ◌==◌, if◌then◌else◌,
  ltb, length, select,
}
use hufi_agents.Js.Text.{Text, units, starts_with}
use hufi_agents.OrgData.Errors.{translate}
use hufi_agents.OrgData.Store.{Reply, ok, err}

-- The texts of a turn: the reply bubble, and what the details say when no mission was started.
pub record TurnView : Type 0 where
  pub bubble : Text
  pub mission : Option String
  pub error : Option Text

abbrev pub preparing : Text
preparing = units "Alles klar. Ich bereite den Auftrag vor."

unfoldable pub start_message : (translated : Text) → Text
start_message t =
    if starts_with (units "Das hat leider") t
      || starts_with (units "Der Auftrag konnte") t
      || starts_with (units "Der Auftrag war") t
    then t
    else units "Der Auftrag konnte nicht gestartet werden: " ++ t

abbrev assigned_count : Reply (List String) → ℕ
assigned_count (ok events) = length (select (λ e. e =ˢ "AGENT_ASSIGNED") events)
assigned_count (err _) = 0

abbrev assigned_message : ℕ → Text
assigned_message n =
    if ltb 1 n
    then units "Der Auftrag ist verteilt. Mein Team arbeitet jetzt daran."
    else if n == 1
    then units "Der Auftrag ist verteilt. Die Arbeit beginnt jetzt."
    else preparing

-- `startTurn`, with the answers to its two requests: the mission's identifier, and the types of the
-- live events.
unfoldable pub start_turn : Reply String → Reply (List String) → TurnView
start_turn (err message) live = record {
  bubble = start_message (translate message);
  mission = none;
  error = some message;
}
start_turn (ok id) live = record {
  bubble = assigned_message (assigned_count live);
  mission = some id;
  error = none;
}

-- The card that asks whether a routine is set up.
pub record RoutineCard : Type 0 where
  pub actions_shown : Bool
  pub enabled : Bool
  pub status : Option Text
  pub input : Option Text

pub data RoutineButton : Type 0 where
  create change cancel : RoutineButton

-- The request for a routine.
pub record RoutineRequest : Type 0 where
  pub owner_agent_id : String
  pub outcome : Text
  pub schedule : Text
  pub timezone : String

unfoldable pub routine_request : Option String → (text schedule : Text) → String → RoutineRequest
routine_request agent text schedule zone = record {
  owner_agent_id = elim agent [ none ↦ "builder" | some a ↦ if a =ˢ "" then "builder" else a ];
  outcome = text;
  schedule = schedule;
  timezone = if zone =ˢ "" then "Europe/Berlin" else zone;
}

abbrev next_run_text : Option Text → Text
next_run_text none = units "Routine eingerichtet."
next_run_text (some t) = units "Routine eingerichtet. Nächster Lauf: " ++ (t ++ units ".")

-- The answer to the request; it holds the next run as it is written, if there is one.
unfoldable pub routine_answer : Reply (Option Text) → RoutineCard → RoutineCard
routine_answer (ok next) c = record c { actions_shown = false; status = some (next_run_text next) }
routine_answer (err message) c = record c {
  enabled = true;
  status = some (units "Die Routine konnte nicht eingerichtet werden: " ++ translate message);
}

unfoldable pub press_button : RoutineButton → (text : Text) → RoutineCard → RoutineCard
press_button create text c = record c { enabled = false }
press_button change text c = record c {
  actions_shown = false;
  status = some (units "Kein Problem — passe den Text unten an und sende ihn erneut.");
  input = some text;
}
press_button cancel text c = record c {
  actions_shown = false;
  status = some (units "Abgebrochen — nichts wurde eingerichtet.");
}
