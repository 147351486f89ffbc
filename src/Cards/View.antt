-- ===== src/Cards/View.antt =====
-- The life of the view "Projekte" in api/static/cards.js: `registerProjekteView`. The order of names
-- by the German locale is an argument.
use hufi_agents.Prelude.{
  ℕ, suc, String, Bool, true, false, List, [], ◌∷◌, Option, none, some, ◌==◌, if◌then◌else◌,
}
use hufi_agents.Js.Text.{Text}
use hufi_agents.OrgData.Types.{Agent, Resource}
use hufi_agents.OrgData.Store.{Reply, Store, initial}
use hufi_agents.Cards.Lookup.{mock_notice}
use hufi_agents.Cards.Project.{ProjectCard}
use hufi_agents.Cards.Tile.{Tile, Registered, load_registry_projects}
use hufi_agents.Cards.Grid.{by_name, Controls, Grid, render_resources, render_projects}

-- The variables of one call of `onShow` with what it has on the screen.
pub record Visit : Type 0 where
  pub number : ℕ
  pub controls : Controls
  pub registry : List Resource
  pub failed : Bool
  pub notice : Option Text
  pub projects : Grid ProjectCard
  pub resources : Grid Tile

-- `is_subscribed` is whether the latest visit listens to the data, from `onShow` to `onHide`. An
-- earlier visit has no elements in the page any more. `agents` is the list of the sidebar, and
-- `drawn_agents` that list when the projects were last drawn.
pub record Page : Type 0 where
  pub store : Store
  pub agents : List Agent
  pub drawn_agents : List Agent
  pub visits : ℕ
  pub is_subscribed : Bool
  pub latest : Option Visit

abbrev pub closed : Page
closed = record {
  store = initial;
  agents = [];
  drawn_agents = [];
  visits = 0;
  is_subscribed = false;
  latest = none;
}

module _ (le : String → String → Bool) where
  abbrev pub redraw_resources : Store → Visit → Visit
  redraw_resources s v = record v {
    resources = render_resources le v.controls s.state v.failed v.registry;
  }

  abbrev pub redraw_projects : List Agent → Store → Visit → Visit
  redraw_projects agents s v = record v {
    notice = mock_notice s [];
    projects = render_projects agents s;
  }

  -- `renderAll`
  abbrev pub redraw : List Agent → Store → Visit → Visit
  redraw agents s v = redraw_resources s (redraw_projects agents s v)

  abbrev pub fresh_controls : Controls
  fresh_controls = record { search = []; type_filter = ""; sort_by = by_name }

  -- A visit that begins: no resources of the registry yet.
  abbrev new_visit : Page → Visit
  new_visit p = redraw p.agents p.store (record {
    number = p.visits;
    controls = fresh_controls;
    registry = [];
    failed = false;
    notice = none;
    projects = record { hints = []; cards = [] };
    resources = record { hints = []; cards = [] };
  })

  unfoldable pub on_show : Page → Page
  unfolding render_resources render_projects mock_notice
  on_show p = record p {
    drawn_agents = p.agents;
    visits = suc p.visits;
    is_subscribed = true;
    latest = some (new_visit p);
  }

  unfoldable pub on_hide : Page → Page
  on_hide p = record p { is_subscribed = false }

  abbrev pub in_latest : (Visit → Visit) → Option Visit → Option Visit
  in_latest f none = none
  in_latest f (some v) = some (f v)

  -- The data changes, and the listeners are told.
  unfoldable pub data_change : Store → Page → Page
  unfolding render_resources render_projects mock_notice
  data_change s p =
      if p.is_subscribed
      then record p {
        store = s;
        drawn_agents = p.agents;
        latest = in_latest (redraw p.agents s) p.latest;
      }
      else record p { store = s }

  -- The sidebar's list changes; this view is not told.
  unfoldable pub agents_change : List Agent → Page → Page
  agents_change l p = record p { agents = l }

  abbrev pub registered : Option (List Resource) → Visit → Visit
  registered none v = record v { failed = true; registry = [] }
  registered (some rs) v = record v { registry = rs }

  abbrev pub answer_visit : ℕ → Store → Reply (List Registered) → Visit → Visit
  answer_visit n s reply v =
      if v.number == n then redraw_resources s (registered (load_registry_projects reply) v) else v

  -- The answer of the registry to the request of a visit.
  unfoldable pub registry_arrives : ℕ → Reply (List Registered) → Page → Page
  unfolding render_resources load_registry_projects
  registry_arrives n reply p = record p {
    latest = in_latest (answer_visit n p.store reply) p.latest;
  }

  -- One of the three controls.
  unfoldable pub set_controls : Controls → Page → Page
  unfolding render_resources
  set_controls c p = record p {
    latest = in_latest (λ v. redraw_resources p.store (record v { controls = c })) p.latest;
  }

  abbrev pub is_latest : ℕ → Option Visit → Bool
  is_latest n none = false
  is_latest n (some v) = v.number == n

  -- `onCreated` of the dialog for a new project, opened in a visit: the dialog of an earlier visit
  -- draws the elements of that visit, which are not in the page any more.
  unfoldable pub project_created : ℕ → Page → Page
  unfolding render_projects mock_notice
  project_created n p =
      if is_latest n p.latest
      then record p {
        drawn_agents = p.agents;
        latest = in_latest (redraw_projects p.agents p.store) p.latest;
      }
      else p

  pub data Event : Type 0 where
    shows hides : Event
    creates : ℕ → Event
    changes_data : Store → Event
    changes_agents : List Agent → Event
    gets_registry : ℕ → Reply (List Registered) → Event
    sets : Controls → Event

  unfoldable pub step : Event → Page → Page
  unfolding on_show on_hide data_change agents_change registry_arrives set_controls project_created
  step shows p = on_show p
  step hides p = on_hide p
  step (creates n) p = project_created n p
  step (changes_data s) p = data_change s p
  step (changes_agents l) p = agents_change l p
  step (gets_registry n reply) p = registry_arrives n reply p
  step (sets c) p = set_controls c p

  unfoldable pub run : List Event → Page → Page
  unfolding step
  run [] p = p
  run (e ∷ es) p = run es (step e p)
