-- ===== src/Tests/Canvas.antt =====
-- Examples of the graph of the organisation: api/static/org-canvas.js.
use hufi_agents.Prelude.{◌≡◌, refl, true, List, [], ◌∷◌, none, some}
use hufi_agents.Js.Text.{units}
use hufi_agents.OrgData.Types.{Agent}
use hufi_agents.OrgData.Store.{ok, notify, add_relationship, relationship_reply}
use hufi_agents.Canvas.Elements.{organisation, build_elements}
use hufi_agents.Canvas.Graph.{IsGraph, build_elements-IsGraph}
use hufi_agents.Canvas.Connect.{Item, resolve_drop, create_or_notify, already_connected}
use hufi_agents.Canvas.Keyboard.{edges_of_drop, offered_edges, drop_dialog}
use hufi_agents.Canvas.Notify.{Settled, create_or_notify-Settled, create_or_notify_twice}
use hufi_agents.Canvas.Rows.{Row, SortState}
use hufi_agents.Canvas.View.{Canvas, on_show, data_change, mount, refresh}
use hufi_agents.Canvas.Current.{shows, data_come, run, after, initial, IsDrawn, run-IsDrawn}
use hufi_agents.Tests.Org.{wants, reports, with_relationships, store_of}

abbrev two_agents : List Agent
two_agents =
    record { id = "builder"; role = ""; status = "active" }
    ∷ record { id = "reviewer"; role = ""; status = "active" }
    ∷ []

build_elements-IsGraph_example :
    IsGraph (build_elements organisation two_agents (some (with_relationships (reports ∷ []))))
build_elements-IsGraph_example =
    build_elements-IsGraph organisation two_agents (some (with_relationships (reports ∷ [])))

abbrev builder : Item
builder = record { kind = "agent"; id = "builder"; label = units "Builder" }

abbrev server : Item
server = record { kind = "resource"; id = "res-1"; label = units "XXL Server" }

drop_dialog_example : edges_of_drop (resolve_drop builder server) ≡ offered_edges builder server
drop_dialog_example = drop_dialog builder server

create_or_notify-Settled_example :
    Settled wants (store_of []) (create_or_notify "" wants (units "ok") (ok reports) (store_of []))
create_or_notify-Settled_example =
    create_or_notify-Settled "" wants (units "ok") (ok reports) (store_of []) (refl, refl)

create_or_notify_twice_example :
    create_or_notify "" wants []
      (ok reports)
      (create_or_notify "" wants (units "ok") (ok reports) (store_of [])).0
    ≡ ((create_or_notify "" wants (units "ok") (ok reports) (store_of [])).0, already_connected)
create_or_notify_twice_example =
    create_or_notify_twice "" wants (units "ok") (ok reports) (store_of []) (refl, refl)
      (unfold create_or_notify add_relationship relationship_reply notify in refl) "" []
      (ok reports)

abbrev as_given : SortState → List Row → List Row
as_given s l = l

abbrev opened : Canvas
opened =
    run as_given (shows true ∷ data_come (some (with_relationships (reports ∷ []))) ∷ [])
      (initial none two_agents)

opened_visible : opened.visible ≡ true
unfolding run after on_show data_change mount refresh initial
opened_visible = refl

run-IsDrawn_example : IsDrawn as_given opened
run-IsDrawn_example =
    run-IsDrawn as_given none two_agents
      (shows true ∷ data_come (some (with_relationships (reports ∷ []))) ∷ []) opened_visible
