-- ===== src/Agents/Audit.antt =====
-- The audit events of api/static/agents.js: their labels, and `fetchAggregatedAudit` with its cache.
use hufi_agents.Prelude.{
  ℕ, ◌-◌, String, Bool, List, [], ◌∷◌, ◌++◌, Option, none, some, leb, ltb, ◌=ˢ◌, if◌then◌else◌, any,
  or_else, sort_with,
}
use hufi_agents.Js.Text.{Text, units}
use hufi_agents.Agents.Names.{property}
use hufi_agents.OrgData.Store.{Reply, ok, err}

-- `EVENT_LABELS`
abbrev pub event_labels : List (String × String)
event_labels =
    ("mission_created", "Neue Aufgabe gestartet")
    ∷ ("task_created", "Teilaufgabe angelegt")
    ∷ ("project_bound", "Projekt verknüpft")
    ∷ ("agent_assigned", "Wurde zugewiesen")
    ∷ ("model_call", "Denkt nach …")
    ∷ ("model_result", "Antwort erhalten")
    ∷ ("tool_call", "Aktion angefragt")
    ∷ ("tool_started", "Aktion gestartet")
    ∷ ("tool_result", "Aktion abgeschlossen")
    ∷ ("tool_reused", "Ergebnis wiederverwendet")
    ∷ ("review", "Ergebnis geprüft")
    ∷ ("approval_requested", "Freigabe angefragt")
    ∷ ("approval_resolved", "Freigabe entschieden")
    ∷ ("policy_blocked", "Von Richtlinie gestoppt")
    ∷ ("state_transition", "Status geändert")
    ∷ ("recovery", "Nach Neustart wiederhergestellt")
    ∷ ("error", "Fehler aufgetreten")
    ∷ ("executor_error", "Ausführungsfehler")
    ∷ ("executor_interrupted", "Ausführung unterbrochen")
    ∷ ("agent_registered", "Wurde registriert")
    ∷ []

unfoldable pub event_label : String → Text
unfolding property
event_label t = or_else (property event_labels (units t)) (units "Aktivität")

abbrev one_of : List String → String → Bool
one_of l t = any (λ x. x =ˢ t) l

unfoldable pub event_tone : String → String
event_tone t =
    if one_of ("error" ∷ "executor_error" ∷ "policy_blocked" ∷ []) t
    then "tone-bad"
    else if one_of ("approval_requested" ∷ "executor_interrupted" ∷ "recovery" ∷ []) t
    then "tone-warn"
    else if one_of ("tool_result" ∷ "review" ∷ "approval_resolved" ∷ "state_transition" ∷ []) t
    then "tone-ok"
    else "tone-idle"

pub record AuditEvent : Type 0 where
  pub id : String
  pub event_type : String
  pub actor : String
  pub ts : ℕ

-- `auditAggCache`
pub record Cache : Type 0 where
  pub ts : ℕ
  pub events : List AuditEvent

-- A trail that cannot be fetched counts as empty.
abbrev pub trail_of : Reply (List AuditEvent) → List AuditEvent
trail_of (ok l) = l
trail_of (err _) = []

abbrev pub flat : List (Reply (List AuditEvent)) → List AuditEvent
flat [] = []
flat (r ∷ rs) = trail_of r ++ flat rs

abbrev pub newer : AuditEvent → AuditEvent → Bool
newer a b = leb b.ts a.ts

-- The merged trails, the newest event first.
unfoldable pub merged : List (Reply (List AuditEvent)) → List AuditEvent
merged trails = sort_with newer (flat trails)

abbrev pub Trails : Type 0
Trails = Reply (List (Reply (List AuditEvent)))

-- The trails of the missions, with what the backend answers for each mission. A failed list of
-- missions counts as no mission.
abbrev pub fetch_trails : (now : ℕ) → Trails → Option Cache × List AuditEvent
fetch_trails now (ok l) = (some (record { ts = now; events = merged l }), merged l)
fetch_trails now (err _) = (some (record { ts = now; events = [] }), [])

abbrev pub young : (now max_age : ℕ) → Cache → Bool
young now max_age c = ltb (now - c.ts) max_age

-- `fetchAggregatedAudit`: the cache while it is young.
unfoldable pub fetch_aggregated_audit :
    (now max_age : ℕ) → Trails → Option Cache → Option Cache × List AuditEvent
unfolding merged
fetch_aggregated_audit now max_age trails none = fetch_trails now trails
fetch_aggregated_audit now max_age trails (some c) =
    if young now max_age c then (some c, c.events) else fetch_trails now trails
