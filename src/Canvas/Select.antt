-- ===== src/Canvas/Select.antt =====
-- Selecting a node in api/static/org-canvas.js: `selectNode`, the detail panels that it opens in the
-- right pane, and the agents that are known.
use hufi_agents.Prelude.{
  String, Bool, true, false, List, [], ◌∷◌, Option, none, some, ◌=ˢ◌, if◌then◌else◌,
}
use hufi_agents.Js.Text.{Text, units}
use hufi_agents.Agents.Names.{humanize_id}
use hufi_agents.OrgData.Types.{Agent, Team, Project, Resource}
use hufi_agents.OrgData.Store.{Store, get_team_by_id, get_project_by_id, get_resource_by_id}
use hufi_agents.Canvas.Elements.{Node}
use hufi_agents.Canvas.Connect.{source_type_options}
use hufi_agents.Canvas.Rows.{resource_type_label}
use hufi_agents.Canvas.Details.{get_agent, RelationshipRow, relationship_rows}

-- `getAllAgents`: the agents of the sidebar, or else those of the organisation.
unfoldable pub get_all_agents : (sidebar : List Agent) → Store → List Agent
get_all_agents [] s = elim s.state [ none ↦ [] | some st ↦ st.agents ]
get_all_agents (a ∷ l) s = a ∷ l

-- What `renderGenericDetail` and `renderAgentDetailFallback` show.
pub record Detail : Type 0 where
  pub name : Text
  pub subtitle : Text
  pub pill : String
  pub description : Text
  pub connections : List RelationshipRow
  pub can_edit : Bool

-- The content of the pane: a sentence, a card of another module, or a detail of this one.
pub data Content : Type 0 where
  owner_sentence : Content
  agent_card : Agent → Content
  team_card : Team → Content
  project_card : Project → Content
  resource_tile : Resource → Content
  detail : Detail → Content

pub record Pane : Type 0 where
  pub title : Text
  pub content : Content

abbrev has_options : String → Bool
has_options kind = elim (source_type_options kind) [ [] ↦ false | _ ∷ _ ↦ true ]

abbrev description_or_hint : String → Text
description_or_hint d = if d =ˢ "" then units "Noch keine Beschreibung." else units d

module _ (sidebar : List Agent) (s : Store) where
  unfoldable pub generic_detail :
      (kind id name description status : String) (type_label : Text) → Detail
  generic_detail kind id name description status type_label = record {
    name = units name;
    subtitle = type_label;
    pill = if status =ˢ "active" then "Aktiv" else "Archiviert";
    description = description_or_hint description;
    connections = relationship_rows sidebar kind id s;
    can_edit = has_options kind;
  }

  unfoldable pub agent_detail_fallback : Agent → Detail
  agent_detail_fallback a = record {
    name = humanize_id (units a.id);
    subtitle = if a.role =ˢ "" then units "Noch keine Rollenbeschreibung." else units a.role;
    pill = if a.status =ˢ "active" then "Aktiv" else "Deaktiviert";
    description = [];
    connections = relationship_rows sidebar "agent" a.id s;
    can_edit = true;
  }

  -- The `open…Detail` functions; `has_cards` tells whether the module of the cards is there.
  module _ (has_cards : Bool) where
    unfoldable pub open_agent_detail : Option Agent → Option Pane
    open_agent_detail none = none
    open_agent_detail (some a) = some (record {
      title = humanize_id (units a.id);
      content = if has_cards then agent_card a else detail (agent_detail_fallback a);
    })

    unfoldable pub open_team_detail : Option Team → Option Pane
    open_team_detail none = none
    open_team_detail (some t) = some (record {
      title = units t.name;
      content =
          if has_cards
          then team_card t
          else detail (generic_detail "team" t.id t.name t.description t.status (units "Team"));
    })

    unfoldable pub open_project_detail : Option Project → Option Pane
    open_project_detail none = none
    open_project_detail (some p) = some (record {
      title = units p.name;
      content =
          if has_cards
          then project_card p
          else detail
              (generic_detail "project" p.id p.name p.description p.status (units "Projekt"));
    })

    unfoldable pub open_resource_detail : Option Resource → Option Pane
    open_resource_detail none = none
    open_resource_detail (some r) = some (record {
      title = units r.name;
      content =
          if has_cards
          then resource_tile r
          else detail (
              generic_detail "resource" r.id r.name r.description r.status
                (resource_type_label r.resource_type));
    })

    abbrev pub owner_pane : Pane
    owner_pane = record { title = units "Pascal"; content = owner_sentence }

    -- The pane that the node opens, if any; the node itself becomes the only one selected.
    unfoldable pub select_node : Node → Option Pane
    select_node n =
        if n.kind =ˢ "owner"
        then some owner_pane
        else if n.kind =ˢ "agent"
        then open_agent_detail (get_agent sidebar s n.ref_id)
        else if n.kind =ˢ "team"
        then open_team_detail (get_team_by_id s n.ref_id)
        else if n.kind =ˢ "project"
        then open_project_detail (get_project_by_id s n.ref_id)
        else if n.kind =ˢ "resource"
        then open_resource_detail (get_resource_by_id s n.ref_id)
        else none
