-- ===== src/Canvas/View.antt =====
-- The life of the view `firma` in api/static/org-canvas.js: `mount`, `refresh`, `setSubview`, the
-- subscription to the data and the registration's two handlers.
use hufi_agents.Prelude.{String, Bool, true, false, not, List, Option, none, some, if◌then◌else◌}
use hufi_agents.Js.Text.{Text, units}
use hufi_agents.OrgData.Types.{Agent, State}
use hufi_agents.Canvas.Elements.{
  Subview, organisation, teams, projekte, ressourcen, liste, Elements, build_elements,
}
use hufi_agents.Canvas.Rows.{Row, all_rows, filtered_rows, SortState, sort_by}

pub data Stage : Type 0 where
  loading_hint : Stage
  table : List Row → Stage
  graph : Elements → Stage

-- What can be seen: the banner, the marked button, and the stage.
pub record Screen : Type 0 where
  pub banner : Option Text
  pub marked : Subview
  pub stage : Stage

abbrev pub mock_banner : Text
mock_banner = units "Entwicklungsmodus — Beispieldaten, das Backend ist noch nicht verbunden."

abbrev pub unavailable_banner : Text
unavailable_banner =
    units "Die Firmenstruktur kann gerade nicht geladen werden. Bitte versuche es in Kürze erneut."

-- The module's variables; `data_now` is the state of the organisation, `agents_now` what `getAllAgents`
-- returns, and `in_order` sorts rows as the platform's collation has it.
pub record Canvas : Type 0 where
  pub data_now : Option State
  pub agents_now : List Agent
  pub search : Text
  pub sorting : SortState
  pub subview : Subview
  pub visible : Bool
  pub mounted : Bool
  pub dirty : Bool
  pub screen : Option Screen

unfoldable pub banner_for : Option State → Option Text
banner_for none = none
banner_for (some st) =
    if st.mock then some mock_banner else if st.unavailable then some unavailable_banner else none

abbrev pub same : Subview → Subview → Bool
same organisation organisation = true
same teams teams = true
same projekte projekte = true
same ressourcen ressourcen = true
same liste liste = true
same _ _ = false

abbrev pub is_list : Subview → Bool
is_list liste = true
is_list _ = false

abbrev pub with_stage : Option Screen → Stage → Option Screen
with_stage none st = none
with_stage (some s) st = some (record s { stage = st })

module _ (in_order : SortState → List Row → List Row) where
  unfoldable pub list_view : Canvas → State → Stage
  list_view c st = table (in_order c.sorting (filtered_rows c.search (all_rows c.agents_now st)))

  unfoldable pub stage_for : Canvas → Option State → Stage
  unfolding list_view
  stage_for c none = loading_hint
  stage_for c (some st) = elim c.subview [
    | liste ↦ list_view c st
    | v ↦ graph (build_elements v c.agents_now (some st))
  ]

  -- What `refresh` draws.
  abbrev pub drawn : Canvas → Screen
  drawn c = record {
    banner = banner_for c.data_now;
    marked = c.subview;
    stage = stage_for c c.data_now;
  }

  unfoldable pub refresh : Canvas → Canvas
  refresh c = record c { screen = some (drawn c); dirty = false }

  unfoldable pub set_subview : Subview → Canvas → Canvas
  set_subview v c = if same v c.subview then c else refresh (record c { subview = v })

  unfoldable pub mount : (wide : Bool) → Canvas → Canvas
  mount wide c =
      refresh (record c { subview = if wide then organisation else liste; mounted = true })

  unfoldable pub on_show : (wide : Bool) → Canvas → Canvas
  on_show wide c =
      if not c.mounted
      then mount wide (record c { visible = true })
      else if c.dirty
      then refresh (record c { visible = true })
      else record c { visible = true }

  unfoldable pub on_hide : Canvas → Canvas
  on_hide c = record c { visible = false }

  -- The data change, and the subscriber, which is there once the view is mounted, is told.
  unfoldable pub data_change : Option State → Canvas → Canvas
  data_change st c =
      let changed = record c { data_now = st } in
      if not c.mounted
      then changed
      else if c.visible
      then refresh changed
      else record changed { dirty = true }

  -- `renderListView` draws the stage alone; it is called when the list is what is shown.
  abbrev pub redraw_list : Canvas → Canvas
  redraw_list c =
      if is_list c.subview
      then record c { screen = with_stage c.screen (stage_for c c.data_now) }
      else c

  -- `input` in the search field
  unfoldable pub search_for : Text → Canvas → Canvas
  search_for q c = redraw_list (record c { search = q })

  -- A click on a column; there are columns when the list is shown.
  unfoldable pub click_column : String → Canvas → Canvas
  click_column key c =
      if is_list c.subview then redraw_list (record c { sorting = sort_by key c.sorting }) else c

  -- The agents are those of another module, which tells nobody when they change.
  unfoldable pub agents_change : List Agent → Canvas → Canvas
  agents_change agents c = record c { agents_now = agents }
