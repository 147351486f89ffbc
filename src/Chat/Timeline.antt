-- ===== src/Chat/Timeline.antt =====
-- The audit timeline of a mission in api/static/chat.js: `eventDot`, `eventNote`, `riskTone` and
-- `renderTimeline`.
use hufi_agents.Prelude.{
  String, Bool, List, [], ◌∷◌, ◌++◌, Option, none, some, ◌=ˢ◌, if◌then◌else◌, map, any, or_else,
}
use hufi_agents.Js.Text.{Text, units}
use hufi_agents.Agents.Names.{property}

-- The fields of `event.detail` that are read; `none` stands for a field that is missing or null.
pub record Detail : Type 0 where
  pub source : Option Text
  pub target : Option Text
  pub reason : Option Text
  pub tool : Option Text
  pub action : Option Text
  pub status : Option Text
  pub provider : Option Text
  pub model : Option Text
  pub verdict : Option Text
  pub risk_class : Option Text
  pub decision : Option Text
  pub error : Option Text

pub record AuditEvent : Type 0 where
  pub event_type : String
  pub actor : Option Text
  pub time : Text
  pub detail : Detail

-- `EVENT_LABELS`
abbrev pub event_labels : List (String × String)
event_labels =
    ("mission_created", "Mission erstellt")
    ∷ ("task_created", "Aufgabe erstellt")
    ∷ ("project_bound", "Projekt verbunden")
    ∷ ("agent_assigned", "Agent zugewiesen")
    ∷ ("model_call", "Modell angefragt")
    ∷ ("model_result", "Modell hat geantwortet")
    ∷ ("tool_call", "Werkzeug angefordert")
    ∷ ("tool_started", "Werkzeug gestartet")
    ∷ ("tool_result", "Werkzeug-Ergebnis")
    ∷ ("tool_reused", "Ergebnis wiederverwendet")
    ∷ ("review", "Prüfung durch Reviewer")
    ∷ ("approval_requested", "Freigabe angefragt")
    ∷ ("approval_resolved", "Freigabe entschieden")
    ∷ ("policy_blocked", "Von Richtlinie blockiert")
    ∷ ("state_transition", "Statuswechsel")
    ∷ ("recovery", "Wiederherstellung nach Neustart")
    ∷ ("error", "Fehler")
    ∷ ("executor_error", "Ausführungsfehler")
    ∷ ("executor_interrupted", "Ausführung unterbrochen")
    ∷ ("agent_registered", "Agent registriert")
    ∷ []

abbrev listed : List String → String → Bool
listed l t = any (λ x. x =ˢ t) l

unfoldable pub event_dot : String → String
event_dot t =
    if listed ("error" ∷ "executor_error" ∷ "policy_blocked" ∷ []) t
    then "var(--bad)"
    else if listed ("approval_requested" ∷ "executor_interrupted" ∷ "recovery" ∷ "tool_call" ∷ []) t
    then "var(--warn)"
    else if listed ("tool_result" ∷ "review" ∷ "approval_resolved" ∷ "state_transition" ∷ []) t
    then "var(--ok)"
    else "var(--idle)"

unfoldable pub risk_tone : String → String
risk_tone r =
    if r =ˢ "R0"
    then "idle"
    else if r =ˢ "R1"
    then "ok"
    else if r =ˢ "R2"
    then "accent"
    else if r =ˢ "R3"
    then "warn"
    else if r =ˢ "R4"
    then "bad"
    else "idle"

-- `x ?? '?'`
abbrev or_mark : Option Text → Text
or_mark o = or_else o (units "?")

-- `x ? prefix + x : ''`
abbrev prefixed : String → Option Text → Text
prefixed p none = []
prefixed p (some []) = []
prefixed p (some (c ∷ t)) = units p ++ (c ∷ t)

abbrev model_note : Option Text → Option Text → Text
model_note none model = []
model_note (some []) model = []
model_note (some (c ∷ t)) model = (c ∷ t) ++ prefixed " / " model

unfoldable pub event_note : AuditEvent → Text
event_note e =
    if e.event_type =ˢ "state_transition"
    then or_mark e.detail.source
      ++ (units " → " ++ (or_mark e.detail.target ++ prefixed " · " e.detail.reason))
    else if e.event_type =ˢ "tool_call"
    then or_mark e.detail.tool
      ++ (b'.' ∷ (or_mark e.detail.action ++ prefixed " auf " e.detail.target))
    else if e.event_type =ˢ "tool_result"
    then units "Status: " ++ or_mark e.detail.status
    else if e.event_type =ˢ "model_call"
    then prefixed "Anbieter: " e.detail.provider
    else if e.event_type =ˢ "model_result"
    then model_note e.detail.provider e.detail.model
    else if e.event_type =ˢ "review"
    then prefixed "Ergebnis: " e.detail.verdict
    else if e.event_type =ˢ "approval_requested"
    then prefixed "Risiko: " e.detail.risk_class
    else if e.event_type =ˢ "approval_resolved"
    then or_mark e.detail.status ++ (units " von " ++ or_mark e.actor)
    else if e.event_type =ˢ "policy_blocked"
    then prefixed "Entscheidung: " e.detail.decision
    else if listed ("error" ∷ "executor_error" ∷ []) e.event_type
    then or_else e.detail.error []
    else []

-- An item of the timeline, with its raw data left out.
pub record TimelineItem : Type 0 where
  pub dot : String
  pub meta : Text
  pub label : Text
  pub note : Text

abbrev actor_text : Option Text → Text
actor_text none = units "—"
actor_text (some []) = units "—"
actor_text (some (c ∷ t)) = c ∷ t

unfoldable pub timeline_item : AuditEvent → TimelineItem
timeline_item e = record {
  dot = event_dot e.event_type;
  meta = e.time ++ (units " · " ++ actor_text e.actor);
  label = or_else (property event_labels (units e.event_type)) (units e.event_type);
  note = event_note e;
}

pub data Timeline : Type 0 where
  hint : Text → Timeline
  items : List TimelineItem → Timeline

unfoldable pub render_timeline : List AuditEvent → Timeline
unfolding timeline_item
render_timeline [] = hint (units "Noch keine Ereignisse.")
render_timeline (e ∷ es) = items (map timeline_item (e ∷ es))
