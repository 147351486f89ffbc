-- ===== src/OrgData/Store.antt =====
-- `Hufi.orgData` of api/static/org-data.js: the module's state and every operation on it. The
-- answer of each request is an argument of the operation that makes the request.
use hufi_agents.Prelude.{
  ℕ, String, Bool, true, false, ◌&&◌, ◌||◌, not, List, [], ◌∷◌, ◌++◌, Option, none, some, ◌==◌,
  ◌=ˢ◌, if◌then◌else◌, is_some, or_else, find, select,
}
use hufi_agents.Js.Text.{Text, units}
use hufi_agents.OrgData.Errors.{translate}
use hufi_agents.OrgData.Types.{
  Value, Agent, OrgUnit, Team, Project, Resource, Relationship, Room, State, OrgReply,
}

-- The answer of `Hufi.api`: a value, or the message of the error that it throws.
pub data Reply {ℓ} (A : Type ℓ) : Type ℓ where
  ok : A → Reply A
  err : Text → Reply A

pub record Thrown : Type 0 where
  pub message : Text
  pub needs_approval : Bool

pub data Outcome {ℓ} (A : Type ℓ) : Type ℓ where
  returned : A → Outcome A
  thrown : Thrown → Outcome A

-- A listener is known by a number; `calls` records, latest first, which listener was called with
-- which state.
pub record Store : Type 0 where
  pub state : Option State
  pub listeners : List ℕ
  pub calls : List (ℕ × Option State)

abbrev pub initial : Store
initial = record { state = none; listeners = []; calls = [] }

-- Each listener in turn; one that throws does not stop the others.
abbrev pub call_each : List ℕ → Option State → List (ℕ × Option State) → List (ℕ × Option State)
call_each [] st calls = calls
call_each (f ∷ fs) st calls = call_each fs st ((f, st) ∷ calls)

unfoldable pub notify : Store → Store
notify s = record s { calls = call_each s.listeners s.state s.calls }

unfoldable pub subscribe : ℕ → Store → Store
subscribe f s = record s { listeners = s.listeners ++ f ∷ [] }

-- `listeners.splice(listeners.indexOf(fn), 1)`
abbrev pub remove_first : ℕ → List ℕ → List ℕ
remove_first f [] = []
remove_first f (g ∷ gs) = if g == f then gs else g ∷ remove_first f gs

unfoldable pub unsubscribe : ℕ → Store → Store
unsubscribe f s = record s { listeners = remove_first f s.listeners }

abbrev agents_of : Reply (List Agent) → List Agent
agents_of (ok l) = l
agents_of (err _) = []

-- The state that `load` builds: what the backend has, or an empty, unavailable organisation.
unfoldable pub loaded : Reply (List Agent) → Reply OrgReply → State
loaded agents (ok g) = record {
  agents = agents_of agents;
  org_units = or_else g.organization_units [];
  teams = or_else g.teams [];
  graph_projects = or_else g.graph_projects [];
  resources = or_else g.resources [];
  relationships = or_else g.relationships [];
  rooms = or_else g.chat_rooms [];
  mock = false;
  unavailable = false;
}
loaded agents (err _) = record {
  agents = agents_of agents;
  org_units = [];
  teams = [];
  graph_projects = [];
  resources = [];
  relationships = [];
  rooms = [];
  mock = false;
  unavailable = true;
}

unfoldable pub load : Reply (List Agent) → Reply OrgReply → Store → Store × State
unfolding loaded notify
load agents org s = let st = loaded agents org in (notify (record s { state = some st }), st)

unfoldable pub is_mock : Store → Bool
is_mock s = elim s.state [ none ↦ false | some st ↦ st.mock ]

module _ (s : Store) where
  unfoldable pub get_agent_by_id : String → Option Agent
  get_agent_by_id id = elim s.state [ none ↦ none | some st ↦ find (λ a. a.id =ˢ id) st.agents ]

  unfoldable pub get_org_unit_by_id : String → Option OrgUnit
  get_org_unit_by_id id = elim s.state [
    | none ↦ none
    | some st ↦ find (λ u. u.id =ˢ id) st.org_units
  ]

  unfoldable pub get_team_by_id : String → Option Team
  get_team_by_id id = elim s.state [ none ↦ none | some st ↦ find (λ t. t.id =ˢ id) st.teams ]

  unfoldable pub get_project_by_id : String → Option Project
  get_project_by_id id = elim s.state [
    | none ↦ none
    | some st ↦ find (λ p. p.id =ˢ id) st.graph_projects
  ]

  unfoldable pub get_resource_by_id : String → Option Resource
  get_resource_by_id id = elim s.state [
    | none ↦ none
    | some st ↦ find (λ r. r.id =ˢ id) st.resources
  ]

abbrev pub is_live : Relationship → Bool
is_live r = not (is_some r.removed_at)

abbrev pub from_node : String → String → Relationship → Bool
from_node kind id r = r.source_type =ˢ kind && r.source_id =ˢ id

abbrev pub to_node : String → String → Relationship → Bool
to_node kind id r = r.target_type =ˢ kind && r.target_id =ˢ id

abbrev pub touches : String → String → Relationship → Bool
touches kind id r = is_live r && (from_node kind id r || to_node kind id r)

unfoldable pub relationships_for : String → String → Store → List Relationship
relationships_for kind id s = elim s.state [
  | none ↦ []
  | some st ↦ select (touches kind id) st.relationships
]

-- Reading `state.mock` before anything is loaded.
abbrev pub null_state : Thrown
null_state = record {
  message = units "Cannot read properties of null (reading 'mock')";
  needs_approval = false;
}

-- `postJson`: every rejection is translated before it is thrown.
unfoldable pub post_json {ℓ} : {A : Type ℓ} → Reply A → Outcome A
post_json (ok a) = returned a
post_json (err message) = thrown (record { message = translate message; needs_approval = false })

-- The item is pushed, the listeners are told, the item is returned; an error goes on up.
abbrev pub push_and_notify {ℓ} :
    {A : Type ℓ} → (A → State → State) → Store → State → Outcome A → Store × Outcome A
push_and_notify push s st (returned item) =
    (notify (record s { state = some (push item st) }), returned item)
push_and_notify push s st (thrown e) = (s, thrown e)

-- The shape of the four `create…` operations: the mock item, or the one that the backend returns.
unfoldable pub create {ℓ} :
    {A : Type ℓ} → (A → State → State) → A → Reply A → Store → Store × Outcome A
unfolding post_json
create push mock_item reply s = elim s.state [
  | none ↦ (s, thrown null_state)
  | some st ↦ push_and_notify push s st (if st.mock then returned mock_item else post_json reply)
]

unfoldable pub create_team :
    (mock_id name description : String) → Reply Team → Store → Store × Outcome Team
unfolding create
create_team mock_id name description =
    create (λ t st. record st { teams = st.teams ++ t ∷ [] })
      (record {
        id = mock_id;
        name = name;
        description = description;
        status = "active";
        archived_at = none;
      })

unfoldable pub create_graph_project :
    (mock_id name description : String) (repository_ref : Option String)
    → Reply Project
    → Store
    → Store × Outcome Project
unfolding create
create_graph_project mock_id name description repository_ref =
    create (λ p st. record st { graph_projects = st.graph_projects ++ p ∷ [] })
      (record {
        id = mock_id;
        name = name;
        description = description;
        repository_ref = repository_ref;
        status = "active";
        archived_at = none;
      })

unfoldable pub create_resource :
    (now : ℕ) (mock_id name resource_type description : String) (metadata : List (String × Value))
    → Reply Resource
    → Store
    → Store × Outcome Resource
unfolding create
create_resource now mock_id name resource_type description metadata =
    create (λ r st. record st { resources = st.resources ++ r ∷ [] })
      (record {
        id = mock_id;
        name = name;
        resource_type = resource_type;
        description = description;
        metadata = metadata;
        status = "active";
        created_at = some now;
        archived_at = none;
      })

unfoldable pub create_room :
    (mock_id room_type host_type host_id name : String) → Reply Room → Store → Store × Outcome Room
unfolding create
create_room mock_id room_type host_type host_id name =
    create (λ r st. record st { rooms = st.rooms ++ r ∷ [] })
      (record {
        id = mock_id;
        room_type = room_type;
        host_type = host_type;
        host_id = host_id;
        name = name;
      })

-- What a caller of `addRelationship` asks for.
pub record Edge : Type 0 where
  pub relationship_type : String
  pub source_type : String
  pub source_id : String
  pub target_type : String
  pub target_id : String
  pub primary : Bool

abbrev pub with_id : String → Edge → Relationship
with_id id e = record {
  id = id;
  relationship_type = e.relationship_type;
  source_type = e.source_type;
  source_id = e.source_id;
  target_type = e.target_type;
  target_id = e.target_id;
  primary = e.primary;
  removed_at = none;
}

abbrev pub push_relationship : Relationship → State → State
push_relationship r st = record st { relationships = st.relationships ++ r ∷ [] }

-- Every rejection counts as one that needs the owner's approval.
unfoldable pub relationship_reply {ℓ} : {A : Type ℓ} → Reply A → Outcome A
relationship_reply (ok a) = returned a
relationship_reply (err message) =
    thrown (record { message = translate message; needs_approval = true })

unfoldable pub add_relationship :
    (mock_id : String) → Edge → Reply Relationship → Store → Store × Outcome Relationship
unfolding relationship_reply
add_relationship mock_id e reply s = elim s.state [
  | none ↦ (s, thrown null_state)
  | some st ↦
      push_and_notify push_relationship s st
        (if st.mock then returned (with_id mock_id e) else relationship_reply reply)
]

-- The first relationship of that id is marked as removed.
abbrev pub mark_removed : ℕ → String → List Relationship → List Relationship
mark_removed now id [] = []
mark_removed now id (r ∷ rs) =
    if r.id =ˢ id then record r { removed_at = some now } ∷ rs else r ∷ mark_removed now id rs

abbrev pub removed : ℕ → String → Store → State → Store × Outcome (Unit {0})
removed now id s st = (
  notify (record s {
    state = some (record st { relationships = mark_removed now id st.relationships });
  }),
  returned tt,
)

unfoldable pub remove_relationship :
    (now : ℕ) (id : String) → Reply (Unit {0}) → Store → Store × Outcome (Unit {0})
unfolding post_json
remove_relationship now id reply s = elim s.state [
  | none ↦ (s, thrown null_state)
  | some st ↦
      if st.mock
      then removed now id s st
      else elim (post_json reply) [ returned _ ↦ removed now id s st | thrown e ↦ (s, thrown e) ]
]
