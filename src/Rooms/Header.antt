-- ===== src/Rooms/Header.antt =====
-- What the head of a room tells: the participants, the host and the line of both in
-- api/static/rooms.js.
use hufi_agents.Prelude.{
  String, Bool, ◌&&◌, List, [], ◌∷◌, ◌++◌, Option, none, some, ◌=ˢ◌, if◌then◌else◌, select, find,
  map_some, length, map, or_else, ◌==◌,
}
use hufi_agents.Js.Text.{Text, units, decimal}
use hufi_agents.Agents.Names.{humanize_id, property}
use hufi_agents.OrgData.Types.{Agent, Relationship, Room, State}
use hufi_agents.OrgData.Store.{
  Store, get_agent_by_id, get_team_by_id, get_project_by_id, relationships_for, to_node, is_mock,
}

-- `TYPE_LABEL`
abbrev pub type_labels : List (String × String)
type_labels =
    ("team", "Teamchat")
    ∷ ("project", "Projektchat")
    ∷ ("company", "Firmenchat")
    ∷ ("agent", "Chat")
    ∷ []

-- `TYPE_LABEL[t] || 'Chat'`
unfoldable pub type_label : String → Text
unfolding property
type_label t = or_else (property type_labels (units t)) (units "Chat")

unfoldable pub find_existing_room : State → (room_type host_id : String) → Option Room
find_existing_room st room_type host_id =
    find (λ r. r.room_type =ˢ room_type && r.host_id =ˢ host_id) st.rooms

-- The relationships of one kind that end in a node.
abbrev pub ending_in : (relation kind id : String) → Relationship → Bool
ending_in relation kind id r = r.relationship_type =ˢ relation && to_node kind id r

abbrev pub sources : Store → List Relationship → List Agent
sources s l = map_some (λ r. get_agent_by_id s r.source_id) l

unfoldable pub participants_in : Store → Room → State → List Agent
participants_in s room st =
    if room.room_type =ˢ "company"
    then st.agents
    else if room.room_type =ˢ "team"
    then sources s (
        select (ending_in "member_of_team" "team" room.host_id)
          (relationships_for "team" room.host_id s))
    else if room.room_type =ˢ "project"
    then sources s (
        select (ending_in "works_on_project" "project" room.host_id)
          (relationships_for "project" room.host_id s))
    else if room.room_type =ˢ "agent"
    then elim (get_agent_by_id s room.host_id) [ none ↦ [] | some a ↦ a ∷ [] ]
    else []

abbrev pub if_loaded {ℓ} : {A : Type ℓ} → Option State → (State → List A) → List A
if_loaded none f = []
if_loaded (some st) f = f st

unfoldable pub resolve_participants : Store → Room → List Agent
unfolding participants_in relationships_for get_agent_by_id
resolve_participants s room = if_loaded s.state (participants_in s room)

abbrev pub agent_display_name : Agent → Text
agent_display_name a = humanize_id (units a.id)

-- A name that is missing or empty gives way to the room's.
abbrev or_name : String → String → Text
or_name name fallback = if name =ˢ "" then units fallback else units name

unfoldable pub host_display_name : Store → Room → Text
unfolding get_agent_by_id get_team_by_id get_project_by_id
host_display_name s room =
    if room.room_type =ˢ "company"
    then units "Hufi"
    else if room.room_type =ˢ "team"
    then elim (get_team_by_id s room.host_id) [
      | none ↦ units room.name
      | some t ↦ or_name t.name room.name
    ]
    else if room.room_type =ˢ "project"
    then elim (get_project_by_id s room.host_id) [
      | none ↦ units room.name
      | some p ↦ or_name p.name room.name
    ]
    else if room.room_type =ˢ "agent"
    then elim (get_agent_by_id s room.host_id) [
      | none ↦ units room.name
      | some a ↦ agent_display_name a
    ]
    else units room.name

abbrev pub people_label : List Agent → Text
people_label l =
    if length l == 1
    then units "1 digitaler Mitarbeiter"
    else decimal (length l) ++ units " digitale Mitarbeiter"

abbrev pub dot : Text
dot = units " · "

unfoldable pub build_header_line : Store → Room → List Agent → Text
unfolding host_display_name type_label
build_header_line s room participants =
    let about = type_label room.room_type ++ (dot ++ people_label participants) in
    if room.room_type =ˢ "company" then about else host_display_name s room ++ (dot ++ about)

-- The texts above the thread, with one chip for each participant.
pub record Head : Type 0 where
  pub title : Text
  pub line : Text
  pub mock_banner : Option Text
  pub chips : List Text

unfoldable pub head_of : Store → Room → Head
unfolding resolve_participants build_header_line is_mock
head_of s room =
    let participants = resolve_participants s room in
    record {
      title = units room.name;
      line = build_header_line s room participants;
      mock_banner = if is_mock s then some (units "Entwicklungsmodus — Beispieldaten") else none;
      chips = elim participants [
        | [] ↦ units "Noch keine Mitglieder zugeordnet." ∷ []
        | a ∷ l ↦ map agent_display_name (a ∷ l)
      ];
    }
