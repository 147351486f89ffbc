-- ===== src/Agents/Sidebar.antt =====
-- The sidebar of api/static/agents.js: `agentRowHtml`, `renderSidebar`, `wireSearch`, `loadSidebar`.
use hufi_agents.Prelude.{
  ℕ, ◌+◌, String, Bool, ◌||◌, not, List, [], ◌∷◌, ◌++◌, Option, none, some, ◌==◌, ◌=ˢ◌,
  if◌then◌else◌, find, select, map, map_some,
}
use hufi_agents.Js.Text.{Text, units, trim, to_lower_case, includes, decimal}
use hufi_agents.Agents.Names.{humanize_id, friendly_role, status_label}
use hufi_agents.OrgData.Errors.{translate}
use hufi_agents.OrgData.Types.{Agent}
use hufi_agents.OrgData.Store.{Reply, ok, err}

-- `GET /company/workforce`.
pub record Area : Type 0 where
  pub unit_id : String
  pub stable_key : String
  pub name : String
  pub status : String
  pub active_agent_count : ℕ
  pub unread_event_count : ℕ

pub record Worker : Type 0 where
  pub agent_id : String
  pub live_state : String
  pub current_activity : Text

pub record Workforce : Type 0 where
  pub areas : List Area
  pub workers : List Worker

-- An active agent has a quiet dot with a title, any other one a pill with a label.
pub data Mark : Type 0 where
  dot pill : Text → Mark

pub record Row : Type 0 where
  pub id : String
  pub name : Text
  pub role : Text
  pub mark : Mark

unfoldable pub agent_row : Agent → Row
unfolding humanize_id friendly_role
agent_row a = record {
  id = a.id;
  name = humanize_id (units a.id);
  role = friendly_role (units a.role);
  mark = if a.status =ˢ "active" then dot (status_label a.status) else pill (status_label a.status);
}

pub record AreaRow : Type 0 where
  pub name : Text
  pub is_working : Bool
  pub count : Text
  pub badge : Option Text

unfoldable pub area_row : Area → AreaRow
area_row a =
    let working = a.status =ˢ "WORKING" in
    record {
      name = units a.name;
      is_working = working;
      count = if working then decimal a.active_agent_count else [];
      badge = if a.unread_event_count == 0 then none else some (decimal a.unread_event_count);
    }

abbrev pub is_boss : Agent → Bool
is_boss a = a.id =ˢ "hufiboss"

-- `/\/shared\/|\/business\//`
abbrev pub is_listed_area : Area → Bool
is_listed_area a =
    includes (units "/shared/") (units a.stable_key)
    || includes (units "/business/") (units a.stable_key)

-- The row of a worker whose agent is among those to show, with the worker's state and activity.
abbrev pub worker_row_of : Worker → Option Agent → Option Row
worker_row_of w none = none
worker_row_of w (some a) =
    some (record (agent_row (record a { status = w.live_state })) { role = w.current_activity })

abbrev pub worker_row : List Agent → Worker → Option Row
worker_row agents w = worker_row_of w (find (λ a. a.id =ˢ w.agent_id) agents)

pub record Listing : Type 0 where
  pub boss : Option Row
  pub areas : List AreaRow
  pub decisions : ℕ
  pub directory : List Row

abbrev pub boss_row : Option Agent → Option Row
boss_row none = none
boss_row (some a) = some (agent_row a)

unfoldable pub render_sidebar : List Agent → Workforce → (decisions : ℕ) → Listing
unfolding agent_row area_row
render_sidebar agents workforce decisions = record {
  boss = boss_row (find is_boss agents);
  areas = map area_row (select is_listed_area workforce.areas);
  decisions = decisions;
  directory =
      map_some (worker_row agents) (select (λ w. not (w.agent_id =ˢ "hufiboss")) workforce.workers);
}

abbrev pub matches : Text → Agent → Bool
matches q a =
    includes q (to_lower_case (humanize_id (units a.id)))
    || includes q (to_lower_case (friendly_role (units a.role)))

-- The agents as workers of a search.
abbrev pub as_worker : Agent → Worker
as_worker a = record {
  agent_id = a.id;
  live_state = a.status;
  current_activity = friendly_role (units a.role);
}

pub data Shown : Type 0 where
  listing : Listing → Shown
  failed : Text → Shown

-- The cache, the text of the search field, what is shown, and how often a reload was asked for.
pub record Sidebar : Type 0 where
  pub cache : List Agent
  pub query : Text
  pub shown : Shown
  pub reloads : ℕ

unfoldable pub filtered : Text → List Agent → Listing
unfolding render_sidebar
filtered q cache =
    let l = select (matches q) cache in
    render_sidebar l (record { areas = []; workers = map as_worker l }) 0

abbrev searched : Text → Sidebar → Sidebar
searched [] s = record s { reloads = s.reloads + 1 }
searched (c ∷ q) s = record s { shown = listing (filtered (c ∷ q) s.cache) }

-- The handler of the search field.
unfoldable pub search_for : Text → Sidebar → Sidebar
unfolding filtered
search_for text s = searched (to_lower_case (trim text)) (record s { query = text })

-- `loadSidebar`, after its three answers.
unfoldable pub loaded : Reply (List Agent) → Reply Workforce → Reply ℕ → Sidebar → Sidebar
unfolding render_sidebar
loaded (err m) _ _ s = record s {
  shown = failed (units "Hufis konnten nicht geladen werden: " ++ translate m);
}
loaded (ok agents) (err m) _ s = record s {
  shown = failed (units "Hufis konnten nicht geladen werden: " ++ translate m);
}
loaded (ok agents) (ok w) (err m) s = record s {
  shown = failed (units "Hufis konnten nicht geladen werden: " ++ translate m);
}
loaded (ok agents) (ok w) (ok decisions) s = record s {
  cache = agents;
  shown = listing (render_sidebar agents w decisions);
}
