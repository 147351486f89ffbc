-- ===== src/Canvas/Elements.antt =====
-- `buildElements` of api/static/org-canvas.js: the nodes and edges that each lens shows.
use Prim.Native.String
use hufi_agents.Prelude.{
  String, Bool, true, false, not, ◌&&◌, ◌||◌, List, [], ◌∷◌, ◌++◌, Option, none, some, ◌=ˢ◌,
  if◌then◌else◌, is_some, select,
}
use hufi_agents.Js.Text.{Text, units}
use hufi_agents.Agents.Names.{humanize_id}
use hufi_agents.OrgData.Types.{Agent, Team, Project, Resource, Relationship, State}
use hufi_agents.OrgData.Store.{is_live}

pub data Subview : Type 0 where
  organisation teams projekte ressourcen liste : Subview

-- The `data` of a node. The picture of an agent (`avatarUri`) is drawn by the browser and left out.
pub record Node : Type 0 where
  pub id : String
  pub kind : String
  pub ref_id : String
  pub label : Text
  pub status : Option String

pub record EdgeLine : Type 0 where
  pub id : String
  pub source : String
  pub target : String
  pub kind : String

-- The three local collections of `buildElements`; `seen` holds the identifiers of the nodes.
pub record Elements : Type 0 where
  pub nodes : List Node
  pub edges : List EdgeLine
  pub seen : List String

abbrev pub no_elements : Elements
no_elements = record { nodes = []; edges = []; seen = [] }

unfoldable pub compound_id : String → String → String
compound_id kind id = String.◌++◌ kind (String.◌++◌ ":" id)

-- `seen.has(id)`
abbrev pub has : List String → String → Bool
has [] x = false
has (y ∷ ys) x = y =ˢ x || has ys x

-- A node is added once.
unfoldable pub add_node : Node → Elements → Elements
add_node n e =
    if has e.seen n.id then e else record e { nodes = e.nodes ++ n ∷ []; seen = n.id ∷ e.seen }

abbrev pub agent_node : Agent → Node
agent_node a = record {
  id = compound_id "agent" a.id;
  kind = "agent";
  ref_id = a.id;
  label = humanize_id (units a.id);
  status = some a.status;
}

abbrev pub team_node : Team → Node
team_node t = record {
  id = compound_id "team" t.id;
  kind = "team";
  ref_id = t.id;
  label = units t.name;
  status = none;
}

abbrev pub project_node : Project → Node
project_node p = record {
  id = compound_id "project" p.id;
  kind = "project";
  ref_id = p.id;
  label = units p.name;
  status = none;
}

abbrev pub resource_node : Resource → Node
resource_node r = record {
  id = compound_id "resource" r.id;
  kind = "resource";
  ref_id = r.id;
  label = units r.name;
  status = none;
}

-- `forEach` of a list of items, each added as its node
unfoldable pub add_nodes {ℓ} : {A : Type ℓ} → (A → Node) → List A → Elements → Elements
add_nodes f [] e = e
add_nodes f (a ∷ as') e = add_nodes f as' (add_node (f a) e)

abbrev pub rel_edge : String → String → String → String → EdgeLine
rel_edge rel_id source target kind = record {
  id = compound_id "rel" rel_id;
  source = source;
  target = target;
  kind = kind;
}

unfoldable pub add_edge_if_present : EdgeLine → Elements → Elements
add_edge_if_present x e =
    if has e.seen x.source && has e.seen x.target then record e { edges = e.edges ++ x ∷ [] } else e

-- One edge for each relationship, as far as both ends are shown.
unfoldable pub add_edges : (Relationship → EdgeLine) → List Relationship → Elements → Elements
add_edges f [] e = e
add_edges f (r ∷ rs) e = add_edges f rs (add_edge_if_present (f r) e)

unfoldable pub rel_of_type : String → State → List Relationship
rel_of_type kind st = select (λ r. r.relationship_type =ˢ kind) (select is_live st.relationships)

-- `Map.get` and `Map.set`; a key that is set again keeps its place.
abbrev pub map_get {ℓ} : {V : Type ℓ} → String → List (String × V) → Option V
map_get k [] = none
map_get k ((j, v) ∷ m) = if j =ˢ k then some v else map_get k m

abbrev pub map_set {ℓ} : {V : Type ℓ} → String → V → List (String × V) → List (String × V)
map_set k v [] = (k, v) ∷ []
map_set k v ((j, w) ∷ m) = if j =ˢ k then (j, v) ∷ m else (j, w) ∷ map_set k v m

abbrev prefers : Relationship → Option Relationship → Bool
prefers r none = true
prefers r (some existing) = r.primary && not existing.primary

-- `bySource`: for each agent the first primary `reports_to`, or else the first one.
unfoldable pub by_source :
    List Relationship → List (String × Relationship) → List (String × Relationship)
by_source [] m = m
by_source (r ∷ rs) m = by_source rs (
    if r.source_type =ˢ "agent" && prefers r (map_get r.source_id m)
    then map_set r.source_id r m
    else m)

abbrev pub report_edge : Relationship → EdgeLine
report_edge r =
    rel_edge r.id (compound_id "agent" r.source_id) (compound_id "agent" r.target_id) "reports_to"

unfoldable pub add_reports : List (String × Relationship) → Elements → Elements
add_reports [] e = e
add_reports ((k, r) ∷ m) e =
    add_reports m (if r.target_type =ˢ "agent" then add_edge_if_present (report_edge r) e else e)

abbrev pub owner_id : String
owner_id = compound_id "owner" "pascal"

abbrev pub owner_node : Node
owner_node = record {
  id = owner_id;
  kind = "owner";
  ref_id = "pascal";
  label = units "Pascal";
  status = none;
}

abbrev pub implicit_edge : Agent → EdgeLine
implicit_edge a = record {
  id = compound_id "implicit" a.id;
  source = compound_id "agent" a.id;
  target = owner_id;
  kind = "implicit_owner";
}

-- Every agent without a `reports_to` of its own is shown under the owner.
unfoldable pub add_implicit : List (String × Relationship) → List Agent → Elements → Elements
add_implicit m [] e = e
add_implicit m (a ∷ as') e =
    add_implicit m as'
      (if is_some (map_get a.id m) then e else record e { edges = e.edges ++ implicit_edge a ∷ [] })

abbrev pub active {ℓ} : {A : Type ℓ} → (A → String) → List A → List A
active status l = select (λ x. not (status x =ˢ "archived")) l

abbrev pub member_edge : Relationship → EdgeLine
member_edge r =
    rel_edge r.id (compound_id "agent" r.source_id) (compound_id "team" r.target_id)
      "member_of_team"

abbrev pub work_edge : Relationship → EdgeLine
work_edge r =
    rel_edge r.id (compound_id "agent" r.source_id) (compound_id "project" r.target_id)
      "works_on_project"

abbrev pub resource_edge : String → Relationship → EdgeLine
resource_edge kind r =
    rel_edge r.id (compound_id r.source_type r.source_id) (compound_id "resource" r.target_id) kind

-- `agents` is what `getAllAgents` returns.
unfoldable pub lens : Subview → List Agent → State → Elements
lens organisation agents st =
    let reports = by_source (rel_of_type "reports_to" st) [] in
    add_implicit reports agents
      (add_reports reports (add_nodes agent_node agents (add_node owner_node no_elements)))
lens teams agents st = add_edges member_edge (rel_of_type "member_of_team" st) (
    add_nodes agent_node agents (add_nodes team_node (active (λ t. t.status) st.teams) no_elements))
lens projekte agents st = add_edges work_edge (rel_of_type "works_on_project" st) (
    add_nodes agent_node agents
      (add_nodes project_node (active (λ p. p.status) st.graph_projects) no_elements))
lens ressourcen agents st =
    add_edges (resource_edge "may_use_resource") (rel_of_type "may_use_resource" st) (
      add_edges (resource_edge "responsible_for_resource")
        (rel_of_type "responsible_for_resource" st)
        (add_nodes team_node (active (λ t. t.status) st.teams) (
          add_nodes agent_node agents
            (add_nodes resource_node (active (λ r. r.status) st.resources) no_elements))))
lens liste agents st = no_elements

unfoldable pub build_elements : Subview → List Agent → Option State → Elements
build_elements subview agents none = no_elements
build_elements subview agents (some st) = lens subview agents st
