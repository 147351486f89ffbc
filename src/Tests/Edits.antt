-- ===== src/Tests/Edits.antt =====
-- Examples of dropping, asking and editing in api/static/org-canvas.js.
use hufi_agents.Prelude.{
  ℕ, ◌+◌, ◌-◌, ◌*◌, ◌/◌, ◌≡◌, refl, true, List, [], ◌∷◌, none, some, All, ltb, leb, arith,
}
use hufi_agents.Js.Text.{units}
use hufi_agents.OrgData.Types.{Agent, State}
use hufi_agents.OrgData.Store.{ok, Store}
use hufi_agents.Canvas.Elements.{teams, build_elements}
use hufi_agents.Canvas.Connect.{Item, cancel, use_only, resolve_drop}
use hufi_agents.Canvas.Question.{clicked, dismissed, answered}
use hufi_agents.Canvas.Drop.{
  Numbers, Placed, handle_drop, replied, asked, drop_run, page, target_of,
}
use hufi_agents.Canvas.Smallest.{IsStrict, IsBest, target_of-IsBest}
use hufi_agents.Canvas.Granted.{resource_drop_asks}
use hufi_agents.Canvas.Redrawn.{dismissed_never_ends}
use hufi_agents.Canvas.Edit.{Edit, open_dialog, removes, removal_answered, closes, edit_run}
use hufi_agents.Canvas.Listed.{IsCurrent}
use hufi_agents.Canvas.Edited.{edit_run-IsCurrent}
use hufi_agents.Canvas.Select.{get_all_agents}
use hufi_agents.Canvas.Opened.{Opens, nodes_open}
use hufi_agents.Tests.Org.{reports, with_relationships, store_of}

-- The native numbers in place of the platform's.
abbrev naturals : Numbers
naturals = record {
  Number = ℕ;
  at_most = leb;
  less = ltb;
  plus = λ a b. a + b;
  minus = λ a b. a - b;
  times = λ a b. a * b;
  half = λ a. a / 2;
  infinity = 1000000;
}

naturals-IsStrict : IsStrict naturals
naturals-IsStrict = record {
  irreflexive = λ a. ground arith;
  transitive = λ a b c h k. ground arith;
}

abbrev builder : Item
builder = record { kind = "agent"; id = "builder"; label = units "Builder" }

abbrev server : Item
server = record { kind = "resource"; id = "res-1"; label = units "XXL Server" }

abbrev dragged : Placed naturals
dragged = record { node_id = "agent:builder"; item = builder; x1 = 10; x2 = 20; y1 = 10; y2 = 20 }

abbrev large : Placed naturals
large = record { node_id = "resource:res-1"; item = server; x1 = 0; x2 = 40; y1 = 0; y2 = 40 }

abbrev small : Placed naturals
small = record { node_id = "resource:res-2"; item = server; x1 = 5; x2 = 25; y1 = 5; y2 = 25 }

target_of-IsBest_example :
    IsBest naturals "agent:builder" 15 15
      (target_of naturals dragged (large ∷ dragged ∷ small ∷ []))
      (large ∷ dragged ∷ small ∷ [])
target_of-IsBest_example =
    target_of-IsBest naturals naturals-IsStrict dragged (large ∷ dragged ∷ small ∷ [])

resource_drop_asks_example :
    (drop_run
      (asked (clicked cancel) ∷ replied "" (ok reports) ∷ [])
      (handle_drop builder (some server) (page (store_of [])))).store
    ≡ store_of []
resource_drop_asks_example =
    resource_drop_asks builder server (store_of [])
      (asked (clicked cancel) ∷ replied "" (ok reports) ∷ []) refl (refl, (refl, tt))

dismissed_never_ends_example :
    ((drop_run
        (asked dismissed ∷ asked (clicked use_only) ∷ asked (answered 0 "" (ok reports)) ∷ [])
        (handle_drop builder (some server) (page (store_of [])))).finished
      ≡ 0)
    × ((drop_run
          (asked dismissed ∷ asked (clicked use_only) ∷ asked (answered 0 "" (ok reports)) ∷ [])
          (handle_drop builder (some server) (page (store_of [])))).store
        ≡ store_of [])
dismissed_never_ends_example =
    dismissed_never_ends builder server (store_of [])
      (asked (clicked use_only) ∷ asked (answered 0 "" (ok reports)) ∷ [])
      (unfold resolve_drop in refl)

abbrev opened : Edit
opened = open_dialog builder [] (store_of (reports ∷ [])) []

edit_run-IsCurrent_example :
    IsCurrent (edit_run (removes 0 ∷ removal_answered 0 9 (ok tt) ∷ closes ∷ []) opened)
edit_run-IsCurrent_example =
    edit_run-IsCurrent builder [] (store_of (reports ∷ [])) []
      (removes 0 ∷ removal_answered 0 9 (ok tt) ∷ closes ∷ []) (refl, (refl, (refl, tt)))

abbrev two_agents : List Agent
two_agents =
    record { id = "builder"; role = ""; status = "active" }
    ∷ record { id = "reviewer"; role = ""; status = "active" }
    ∷ []

abbrev with_team : State
with_team = record (with_relationships (reports ∷ [])) {
  teams =
      record {
        id = "team-1";
        name = "Marketing";
        description = "";
        status = "active";
        archived_at = none;
      }
      ∷ [];
}

abbrev team_store : Store
team_store = record { state = some with_team; listeners = []; calls = [] }

nodes_open_example :
    All
      (Opens two_agents team_store true)
      (build_elements teams (get_all_agents two_agents team_store) (some with_team)).nodes
nodes_open_example = nodes_open two_agents team_store true teams with_team refl ((tt, tt), tt, tt)
