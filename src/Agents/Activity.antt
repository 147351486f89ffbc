-- ===== src/Agents/Activity.antt =====
-- What the panel of an agent in api/static/agents.js loads: `loadAgentActivity` and `loadRoutines`. The
-- locale's spelling of a date is an argument.
use hufi_agents.Prelude.{
  ℕ, String, Bool, ◌||◌, not, List, [], ◌∷◌, ◌++◌, Option, none, some, ◌=ˢ◌, ◌==◌, if◌then◌else◌,
  is_some, select, map,
}
use hufi_agents.Js.Text.{Text, units, decimal}
use hufi_agents.Agents.Schedule.{schedule_label_de}
use hufi_agents.OrgData.Errors.{translate}
use hufi_agents.OrgData.Store.{Reply, ok, err}

-- An event of the work of an agent.
pub record WorkEvent : Type 0 where
  pub id : String
  pub event_type : Text
  pub safe_summary : Text
  pub is_severe : Bool
  pub timestamp : ℕ
  pub read_at : Option ℕ

-- `GET /agents/:id/activity`; a missing list of events is empty.
pub record Activity : Type 0 where
  pub status : String
  pub current_activity : Text
  pub active_task_count : ℕ
  pub unread_event_count : ℕ
  pub events : List WorkEvent
  pub artifacts : List Text
  pub messages : List (Text × Text)

unfoldable pub status_tone : String → String
status_tone s =
    if s =ˢ "WORKING" || (s =ˢ "PLANNING" || s =ˢ "REVIEWING")
    then "tone-ok"
    else if s =ˢ "BLOCKED"
    then "tone-bad"
    else "tone-idle"

abbrev dot : Text
dot = units " · "

-- `replace(/_/g, ' ')`
abbrev pub spaced : Text → Text
spaced [] = []
spaced (c ∷ t) = (if c == b'_' then b' ' else c) ∷ spaced t

-- What the panel shows: the pill, the summary, the events, and the lists under them. `reads` are the
-- events that are then marked as read.
pub record Panel : Type 0 where
  pub pill : Option (String × String)
  pub texts : List Text
  pub reads : List String

module _ (locale : ℕ → Text) where
  abbrev event_texts : List WorkEvent → List Text
  event_texts [] = []
  event_texts (e ∷ es) =
      e.safe_summary ∷ (locale e.timestamp ++ (dot ++ spaced e.event_type)) ∷ event_texts es

  abbrev message_texts : List (Text × Text) → List Text
  message_texts [] = []
  message_texts ((t, c) ∷ l) = (t ++ (dot ++ c)) ∷ message_texts l

  abbrev under : String → List Text → List Text
  under heading [] = []
  under heading (t ∷ l) = units heading ∷ t ∷ l

  abbrev pub unread : List WorkEvent → List WorkEvent
  unread l = select (λ e. not (is_some e.read_at)) l

  abbrev summary_of : Activity → List Text
  summary_of a =
      a.current_activity
      ∷ (decimal a.active_task_count
          ++ (units " aktive Aufgaben · "
              ++ (decimal a.unread_event_count ++ units " neue Ereignisse")))
      ∷ []

  abbrev body_of : Activity → List WorkEvent → List Text
  body_of a [] = units "Noch keine Aktivität." ∷ []
  body_of a (e ∷ es) =
      event_texts (e ∷ es)
      ++ (under "Artefakte" a.artifacts
          ++ under "Nachrichten / Handoffs" (message_texts a.messages))

  -- `loadAgentActivity`, after its answer.
  unfoldable pub activity_panel : Reply Activity → Panel
  unfolding status_tone
  activity_panel (ok a) = record {
    pill = some (a.status, status_tone a.status);
    texts = summary_of a ++ body_of a a.events;
    reads = map (λ e. e.id) (unread a.events);
  }
  activity_panel (err _) = record {
    pill = none;
    texts = units "Aktivität konnte nicht geladen werden." ∷ [];
    reads = [];
  }

  -- A routine of the agent; its schedule is in the words of the backend.
  pub record Routine : Type 0 where
    pub id : String
    pub schedule : Text
    pub enabled : Bool
    pub next_run : Option ℕ

  abbrev next_text : Option ℕ → Text
  next_text none = units "wird geplant"
  next_text (some t) = locale t

  abbrev routine_texts : Routine → List Text
  routine_texts r =
      schedule_label_de r.schedule
      ∷ units (if r.enabled then "Aktiv" else "Pausiert")
      ∷ units (if r.enabled then "Pausieren" else "Fortsetzen")
      ∷ (units "Nächster Lauf: " ++ next_text r.next_run)
      ∷ []

  abbrev all_texts : List Routine → List Text
  all_texts [] = []
  all_texts (r ∷ rs) = routine_texts r ++ all_texts rs

  -- `loadRoutines`, after its answer.
  unfoldable pub routines_panel : Reply (List Routine) → List Text
  unfolding schedule_label_de
  routines_panel (ok []) = units "Keine Routinen." ∷ units "Routine anlegen" ∷ []
  routines_panel (ok (r ∷ rs)) = all_texts (r ∷ rs) ++ units "Routine anlegen" ∷ []
  routines_panel (err message) =
      (units "Routinen konnten nicht geladen werden: " ++ translate message) ∷ []

-- The request of a routine's button, by the text that the button has.
unfoldable pub routine_action : (button_text : String) → String
routine_action t = if t =ˢ "Pausieren" then "pause" else "resume"
