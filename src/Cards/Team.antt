-- ===== src/Cards/Team.antt =====
-- The card of a team: `renderTeamCard` of api/static/cards.js.
use hufi_agents.Prelude.{String, Bool, ◌&&◌, List, [], ◌∷◌, ◌=ˢ◌, map, select, map_some}
use hufi_agents.Js.Text.{Text, units}
use hufi_agents.Agents.Names.{humanize_id}
use hufi_agents.OrgData.Types.{Agent, Relationship, Team, Project}
use hufi_agents.OrgData.Store.{Store, relationships_for, to_node}
use hufi_agents.Rooms.Open.{Wanted}
use hufi_agents.Cards.Lookup.{
  resolve_agent, resolve_project, set_of, concat_map, names_or, or_default, name_or, ◌++ˢ◌,
}

-- The agents whose relationship of one kind ends in a node.
abbrev pub ends_in : (relation kind id : String) → Relationship → Bool
ends_in relation kind id r = r.relationship_type =ˢ relation && to_node kind id r

-- The relationships of one kind that begin at an agent.
abbrev pub begins_at : (relation id : String) → Relationship → Bool
begins_at relation id r = r.relationship_type =ˢ relation && r.source_id =ˢ id

unfoldable pub members : List Agent → Store → (team : String) → List Agent
unfolding resolve_agent relationships_for
members agents s team = map_some (resolve_agent agents s) (
    map (λ r. r.source_id)
      (select (ends_in "member_of_team" "team" team) (relationships_for "team" team s)))

-- The projects of the members, each once.
unfoldable pub team_projects : List Agent → Store → (team : String) → List Project
unfolding members set_of resolve_project relationships_for
team_projects agents s team = map_some (resolve_project s) (
    set_of [] (
      concat_map
        (λ (a : Agent).
          map (λ r. r.target_id)
            (select (begins_at "works_on_project" a.id) (relationships_for "agent" a.id s)))
        (members agents s team)))

pub record TeamCard : Type 0 where
  pub title : Text
  pub description : Text
  pub member_names : List Text
  pub project_names : Text
  -- what the button opens
  pub chat : Wanted

unfoldable pub render_team_card : List Agent → Store → Team → TeamCard
unfolding members team_projects names_or
render_team_card agents s team = record {
  title = or_default team.name "Unbenanntes Team";
  description = or_default team.description "Keine Beschreibung.";
  member_names = elim (members agents s team.id) [
    | [] ↦ units "Noch keine Mitglieder." ∷ []
    | a ∷ l ↦ map (λ x. humanize_id (units x.id)) (a ∷ l)
  ];
  project_names =
      names_or (map (λ p. p.name) (team_projects agents s team.id)) "Noch kein Projekt verknüpft.";
  chat = record {
    room_type = "team";
    host_type = "team";
    host_id = team.id;
    name = name_or team.name "Unbenanntes Team" ++ˢ " Teamchat";
  };
}
