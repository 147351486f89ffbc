-- ===== src/Cards/Grid.antt =====
-- The lists of the views "Projekte" and "Routinen" in api/static/cards.js: `renderProjects`,
-- `renderResources` and `renderList`. The order of names by the German locale is an argument.
use hufi_agents.Prelude.{
  ℕ, String, Bool, true, false, ◌&&◌, ◌||◌, not, List, [], ◌∷◌, ◌++◌, Option, none, some, leb, ◌=ˢ◌,
  if◌then◌else◌, is_some, or_else, select, map, sort_with,
}
use hufi_agents.Js.Text.{Text, units, trim, to_lower_case, includes}
use hufi_agents.OrgData.Types.{Agent, Project, Resource, State}
use hufi_agents.OrgData.Store.{Store}
use hufi_agents.Cards.Project.{ProjectCard, render_project_card}
use hufi_agents.Cards.Tile.{Tile, render_resource_tile}

-- The controls over the resources.
pub data SortBy : Type 0 where
  by_name recent : SortBy

pub record Controls : Type 0 where
  pub search : Text
  pub type_filter : String
  pub sort_by : SortBy

-- What a grid shows: a hint, or cards.
pub record Grid (A : Type 0) : Type 0 where
  pub hints : List String
  pub cards : List A

abbrev pub hint : {A : Type 0} → String → Grid A
hint t = record { hints = t ∷ []; cards = [] }

abbrev pub is_active : Resource → Bool
is_active r = not (is_some r.archived_at)

-- The organisation's resources that are not archived, and those of the registry.
unfoldable pub combined : State → List Resource → List Resource
combined st registry = select is_active st.resources ++ registry

abbrev pub contains : Text → Resource → Bool
contains q r =
    includes q (to_lower_case (units r.name)) || includes q (to_lower_case (units r.description))

abbrev pub of_type : String → Resource → Bool
of_type t r = t =ˢ "" || r.resource_type =ˢ t

abbrev found : Text → Resource → Bool
found [] r = true
found (c ∷ q) r = contains (c ∷ q) r

unfoldable pub matches : Controls → Resource → Bool
matches c r = of_type c.type_filter r && found (to_lower_case (trim c.search)) r

abbrev pub time_of : Resource → ℕ
time_of r = or_else r.created_at 0

-- Whether one resource may stand before another.
abbrev pub in_order : (le : String → String → Bool) → SortBy → Resource → Resource → Bool
in_order le by_name a b = le a.name b.name
in_order le recent a b = leb (time_of b) (time_of a)

unfoldable pub shown_resources :
    (le : String → String → Bool) → Controls → State → (registry : List Resource) → List Resource
unfolding combined matches
shown_resources le c st registry =
    sort_with (in_order le c.sort_by) (select (matches c) (combined st registry))

abbrev empty_hint : String → String
empty_hint t =
    if t =ˢ "server" then "Keine Server-Ressourcen angebunden." else "Keine Ressourcen gefunden."

abbrev error_hint : Bool → List String
error_hint true = "Verbundene Repositories konnten nicht geladen werden." ∷ []
error_hint false = []

abbrev grid_of : Bool → String → List Resource → Grid Tile
grid_of failed t [] = record { hints = error_hint failed ++ empty_hint t ∷ []; cards = [] }
grid_of failed t (r ∷ rs) = record {
  hints = error_hint failed;
  cards = map (render_resource_tile false) (r ∷ rs);
}

-- `renderResources`
unfoldable pub render_resources :
    (le : String → String → Bool)
    → Controls
    → Option State
    → (failed : Bool) (registry : List Resource) → Grid Tile
unfolding shown_resources
render_resources le c none failed registry = hint "Lädt …"
render_resources le c (some st) failed registry =
    grid_of failed c.type_filter (shown_resources le c st registry)

abbrev live_project : Project → Bool
live_project p = not (is_some p.archived_at)

abbrev projects_of : List Agent → Store → List Project → Grid ProjectCard
projects_of agents s [] = hint "Noch kein Projekt angelegt. Lege dein erstes Projekt an."
projects_of agents s (p ∷ ps) = record {
  hints = [];
  cards = map (render_project_card agents s) (select live_project (p ∷ ps));
}

-- `renderProjects`, without the notice of mock data.
unfoldable pub render_projects : List Agent → Store → Grid ProjectCard
render_projects agents s = elim s.state [
  | none ↦ hint "Lädt …"
  | some st ↦ projects_of agents s st.graph_projects
]
