-- ===== src/Canvas/Connect.antt =====
-- Connecting two nodes in api/static/org-canvas.js: `resolveDrop`, `createOrNotify`, the options of
-- the edit dialog and the targets that it offers.
use hufi_agents.Prelude.{
  String, Bool, true, false, not, ◌&&◌, ◌||◌, List, [], ◌∷◌, ◌++◌, Option, none, some, ◌=ˢ◌,
  if◌then◌else◌, select, find, map,
}
use hufi_agents.Js.Text.{Text, units}
use hufi_agents.Agents.Names.{humanize_id}
use hufi_agents.OrgData.Types.{Agent, Relationship, State}
use hufi_agents.OrgData.Store.{
  Reply, Outcome, returned, thrown, Thrown, Store, Edge, is_live, add_relationship,
}

pub data Tone : Type 0 where
  info success warn : Tone

pub record Notice : Type 0 where
  pub tone : Tone
  pub text : Text

-- A node that is dragged, or dropped on: its kind, identifier and label.
pub record Item : Type 0 where
  pub kind : String
  pub id : String
  pub label : Text

-- What a drop does: ask for a relationship, ask the user first, or only say something.
pub data DropAction : Type 0 where
  connect :
      (relationship_type source_type source_id target_type target_id : String)
      → (message : Text) → DropAction
  confirm : (source target : Item) → DropAction
  say : Text → DropAction

abbrev pub joined_message : Item → Item → Text
joined_message s t =
    units "Ich habe „" ++ (s.label ++ (units "“ mit „" ++ (t.label ++ units "“ verbunden.")))

abbrev pub reports_message : Item → Item → Text
reports_message s t =
    units "„" ++ (s.label ++ (units "“ berichtet jetzt an „" ++ (t.label ++ units "“.")))

abbrev pub owner_message : Text
owner_message =
    units
      "Alle Hufis ohne eigenen Vorgesetzten berichten bereits direkt an dich — dafür ist keine Verbindung nötig."

abbrev pub nesting_message : Text
nesting_message =
    units
      "Teams lassen sich nicht direkt verschachteln. Füge stattdessen einzelne Hufis beiden Teams hinzu — gemeinsame Mitglieder zeigen die Verschachtelung."

abbrev pub unsupported_message : Text
unsupported_message = units "Diese Verbindung wird noch nicht unterstützt."

unfoldable pub resolve_drop : Item → Item → DropAction
resolve_drop s t =
    if s.kind =ˢ "agent" && t.kind =ˢ "team"
    then connect "member_of_team" "agent" s.id "team" t.id (joined_message s t)
    else if s.kind =ˢ "agent" && t.kind =ˢ "project"
    then connect "works_on_project" "agent" s.id "project" t.id (joined_message s t)
    else if s.kind =ˢ "agent" && t.kind =ˢ "agent"
    then connect "reports_to" "agent" s.id "agent" t.id (reports_message s t)
    else if s.kind =ˢ "agent" && t.kind =ˢ "owner"
    then say owner_message
    else if (s.kind =ˢ "agent" || s.kind =ˢ "team") && t.kind =ˢ "resource"
    then confirm s t
    else if s.kind =ˢ "team" && t.kind =ˢ "team"
    then say nesting_message
    else say unsupported_message

-- The buttons of the dialog that asks before an access to a resource is granted.
pub data Choice : Type 0 where
  responsible use_only cancel : Choice

abbrev pub choice_edge : String → Item → Item → Edge
choice_edge relationship_type source target = record {
  relationship_type = relationship_type;
  source_type = if source.kind =ˢ "team" then "team" else "agent";
  source_id = source.id;
  target_type = "resource";
  target_id = target.id;
  primary = true;
}

unfoldable pub confirm_edge : Choice → Item → Item → Option Edge
confirm_edge responsible s t = some (choice_edge "responsible_for_resource" s t)
confirm_edge use_only s t = some (choice_edge "may_use_resource" s t)
confirm_edge cancel s t = none

abbrev pub same_edge : Edge → Relationship → Bool
same_edge e r =
    r.relationship_type =ˢ e.relationship_type
    && r.source_type =ˢ e.source_type
    && r.source_id =ˢ e.source_id
    && r.target_type =ˢ e.target_type
    && r.target_id =ˢ e.target_id

abbrev pub live_relationships : Store → List Relationship
live_relationships s = elim s.state [ none ↦ [] | some st ↦ select is_live st.relationships ]

abbrev pub or_general : Text → Text → Text
or_general [] general = general
or_general (c ∷ m) general = c ∷ m

-- `(err && err.needsApproval && err.message) ? err.message : …`
abbrev pub failure_text : Thrown → Text → Text
failure_text e general = if e.needs_approval then or_general e.message general else general

abbrev pub not_worked : Text
not_worked = units "Das hat leider nicht geklappt."

abbrev pub already_connected : Notice
already_connected = record { tone = info; text = units "Diese Verbindung besteht bereits." }

abbrev pub report : Text → Store × Outcome Relationship → Store × Notice
report message (s, returned r) = (s, record { tone = success; text = message })
report message (s, thrown e) = (s, record { tone = warn; text = failure_text e not_worked })

unfoldable pub create_or_notify :
    (mock_id : String) → Edge → Text → Reply Relationship → Store → Store × Notice
create_or_notify mock_id e message reply s = elim (find (same_edge e) (live_relationships s)) [
  | some existing ↦ (s, already_connected)
  | none ↦ report message (add_relationship mock_id e reply s)
]

-- `SOURCE_TYPE_OPTIONS`
pub record TypeOption : Type 0 where
  pub relationship_type : String
  pub label : String
  pub target_kind : String

abbrev pub resource_options : List TypeOption
resource_options =
    record {
      relationship_type = "responsible_for_resource";
      label = "Ist verantwortlich für Ressource";
      target_kind = "resource";
    }
    ∷ record {
      relationship_type = "may_use_resource";
      label = "Darf Ressource verwenden";
      target_kind = "resource";
    }
    ∷ []

abbrev pub agent_options : List TypeOption
agent_options =
    record {
      relationship_type = "reports_to";
      label = "Berichtet an (Hufi)";
      target_kind = "agent";
    }
    ∷ record {
      relationship_type = "member_of_team";
      label = "Gehört zu Team";
      target_kind = "team";
    }
    ∷ record {
      relationship_type = "works_on_project";
      label = "Arbeitet an Projekt";
      target_kind = "project";
    }
    ∷ resource_options

-- `SOURCE_TYPE_OPTIONS[nodeType] || []`
unfoldable pub source_type_options : String → List TypeOption
source_type_options kind =
    if kind =ˢ "agent" then agent_options else if kind =ˢ "team" then resource_options else []

pub record Target : Type 0 where
  pub id : String
  pub label : Text

abbrev not_archived {ℓ} : {A : Type ℓ} → (A → String) → List A → List A
not_archived status l = select (λ x. not (status x =ˢ "archived")) l

abbrev excluded : Option String → String → Bool
excluded none id = false
excluded (some x) id = id =ˢ x

unfoldable pub targets_for : String → Option String → List Agent → Option State → List Target
targets_for kind exclude agents none = []
targets_for kind exclude agents (some st) =
    if kind =ˢ "agent"
    then map (λ a. record { id = a.id; label = humanize_id (units a.id) })
        (select (λ a. not (excluded exclude a.id)) agents)
    else if kind =ˢ "team"
    then map (λ t. record { id = t.id; label = units t.name })
        (not_archived (λ t. t.status) st.teams)
    else if kind =ˢ "project"
    then map (λ p. record { id = p.id; label = units p.name })
        (not_archived (λ p. p.status) st.graph_projects)
    else if kind =ˢ "resource"
    then map (λ r. record { id = r.id; label = units r.name })
        (not_archived (λ r. r.status) st.resources)
    else []

-- What the dialog's `submit` asks for: to confirm an access, or at once a relationship.
pub data EditAction : Type 0 where
  ask : (source target : Item) → EditAction
  add : Edge → EditAction

abbrev pub option_edge : Item → Item → TypeOption → Edge
option_edge node target o = record {
  relationship_type = o.relationship_type;
  source_type = node.kind;
  source_id = node.id;
  target_type = o.target_kind;
  target_id = target.id;
  primary = true;
}

abbrev pub grants_access : String → Bool
grants_access relationship_type =
    relationship_type =ˢ "responsible_for_resource" || relationship_type =ˢ "may_use_resource"

unfoldable pub submit_edit : Item → TypeOption → Item → EditAction
submit_edit node o target =
    if grants_access o.relationship_type
    then ask node (record { kind = "resource"; id = target.id; label = target.label })
    else add (option_edge node target o)
