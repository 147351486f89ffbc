-- ===== src/Tests/Org.antt =====
-- Examples of the data of the organisation: api/static/org-data.js.
use hufi_agents.Prelude.{◌≡◌, refl, true, false, not, List, [], ◌∷◌, none, some, select, ◌=ˢ◌}
use hufi_agents.Js.Text.{units}
use hufi_agents.OrgData.Errors.{translate}
use hufi_agents.OrgData.Types.{Relationship, Team, State}
use hufi_agents.OrgData.Store.{
  ok, err, Store, Edge, initial, is_mock, relationships_for, remove_relationship,
}
use hufi_agents.OrgData.Translation.{IsGerman, translate-IsGerman}
use hufi_agents.OrgData.Relations.{relationships_for-remove_relationship}
use hufi_agents.OrgData.Mutations.{Request, team, perform}
use hufi_agents.OrgData.Made.{Performed}
use hufi_agents.OrgData.Performed.{perform-Performed}
use hufi_agents.OrgData.Reachable.{loads, run_events, mock-run_events}

abbrev pub wants : Edge
wants = record {
  relationship_type = "reports_to";
  source_type = "agent";
  source_id = "builder";
  target_type = "agent";
  target_id = "reviewer";
  primary = true;
}

abbrev pub reports : Relationship
reports = record {
  id = "rel-1";
  relationship_type = "reports_to";
  source_type = "agent";
  source_id = "builder";
  target_type = "agent";
  target_id = "reviewer";
  primary = true;
  removed_at = none;
}

abbrev pub with_relationships : List Relationship → State
with_relationships l = record {
  agents = [];
  org_units = [];
  teams = [];
  graph_projects = [];
  resources = [];
  relationships = l;
  rooms = [];
  mock = false;
  unavailable = false;
}

abbrev pub store_of : List Relationship → Store
store_of l = record { state = some (with_relationships l); listeners = 4 ∷ []; calls = [] }

relationships_for-remove_relationship_example :
    relationships_for "agent" "builder"
      (remove_relationship 9 "rel-1" (ok tt) (store_of (reports ∷ []))).0
    ≡ select
        (λ r. not (r.id =ˢ "rel-1"))
        (relationships_for "agent" "builder" (store_of (reports ∷ [])))
relationships_for-remove_relationship_example =
    relationships_for-remove_relationship 9 "rel-1" (store_of (reports ∷ []))
      (with_relationships (reports ∷ [])) "agent" "builder" refl (tt, tt)

abbrev marketing : Team
marketing = record {
  id = "t9";
  name = "Marketing";
  description = "";
  status = "active";
  archived_at = none;
}

abbrev asks_team : Request
asks_team = team "mock-1" "Marketing" "" (ok marketing)

perform-Performed_example : Performed asks_team (store_of []) (perform asks_team (store_of []))
perform-Performed_example = perform-Performed asks_team (store_of [])

mock-run_events_example :
    is_mock (run_events initial (loads (ok []) (err (units "offline")) ∷ [])) ≡ false
mock-run_events_example = mock-run_events (loads (ok []) (err (units "offline")) ∷ [])

translate-IsGerman_example : IsGerman (translate (units "unauthenticated"))
translate-IsGerman_example = translate-IsGerman (units "unauthenticated")
