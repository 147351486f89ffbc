-- ===== src/Canvas/Rows.antt =====
-- The list of api/static/org-canvas.js: the rows of `renderListView`, and what they say.
use hufi_agents.Prelude.{
  String, Bool, true, false, ◌||◌, List, [], ◌∷◌, ◌++◌, ◌=ˢ◌, if◌then◌else◌, map, select,
}
use hufi_agents.Js.Text.{Text, units, trim, to_lower_case, includes, upper}
use hufi_agents.Js.Regex.{seq, boundary, unit, is_word}
use hufi_agents.Js.Regex.Patterns.{chr}
use hufi_agents.Js.Regex.Search.{replace_all}
use hufi_agents.Agents.Names.{humanize_id}
use hufi_agents.OrgData.Types.{Agent, Team, Project, Resource, State}

pub record Row : Type 0 where
  pub kind : String
  pub id : String
  pub name : Text
  pub type_label : Text
  pub status_label : Text

abbrev or_resource : Text → Text
or_resource [] = units "Ressource"
or_resource (c ∷ s) =
    replace_all (seq boundary (unit is_word)) (λ m. elim m.before [ [] ↦ [] | x ∷ _ ↦ upper x ])
      (c ∷ s)

-- `resourceTypeLabel`
unfoldable pub resource_type_label : String → Text
resource_type_label t =
    if t =ˢ "github_repo"
    then units "GitHub-Repository"
    else if t =ˢ "server"
    then units "Server"
    else if t =ˢ "database"
    then units "Datenbank"
    else if t =ˢ "api_key"
    then units "API-Zugang"
    else if t =ˢ "tool"
    then units "Werkzeug"
    else or_resource (trim (replace_all (chr b'_') (λ _. b' ' ∷ []) (units t)))

abbrev archive_label : String → Text
archive_label s = if s =ˢ "active" then units "Aktiv" else units "Archiviert"

abbrev agent_row : Agent → Row
agent_row a = record {
  kind = "agent";
  id = a.id;
  name = humanize_id (units a.id);
  type_label = units "Hufi";
  status_label = if a.status =ˢ "active" then units "Aktiv" else units "Deaktiviert";
}

abbrev team_row : Team → Row
team_row t = record {
  kind = "team";
  id = t.id;
  name = units t.name;
  type_label = units "Team";
  status_label = archive_label t.status;
}

abbrev project_row : Project → Row
project_row p = record {
  kind = "project";
  id = p.id;
  name = units p.name;
  type_label = units "Projekt";
  status_label = archive_label p.status;
}

abbrev resource_row : Resource → Row
resource_row r = record {
  kind = "resource";
  id = r.id;
  name = units r.name;
  type_label = resource_type_label r.resource_type;
  status_label = archive_label r.status;
}

unfoldable pub all_rows : List Agent → State → List Row
all_rows agents st =
    map agent_row agents
    ++ (map team_row st.teams
        ++ (map project_row st.graph_projects ++ map resource_row st.resources))

abbrev pub matches : Text → Row → Bool
matches q r = includes q (to_lower_case r.name) || includes q (to_lower_case r.type_label)

-- The search text, trimmed and in lower case; an empty one keeps every row.
unfoldable pub filtered_rows : (search : Text) → List Row → List Row
filtered_rows search rows = elim (to_lower_case (trim search)) [
  | [] ↦ rows
  | c ∷ q ↦ select (matches (c ∷ q)) rows
]

pub record SortState : Type 0 where
  pub key : String
  pub ascending : Bool

-- A click on a column: the same one that ascends now descends, any other choice ascends.
unfoldable pub sort_by : String → SortState → SortState
sort_by key s = record {
  key = key;
  ascending = if s.key =ˢ key then (if s.ascending then false else true) else true;
}
