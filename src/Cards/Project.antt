-- ===== src/Cards/Project.antt =====
-- The card of a project: `renderProjectCard` of api/static/cards.js.
use hufi_agents.Prelude.{
  String, Bool, ◌&&◌, ◌||◌, List, [], ◌∷◌, Option, none, some, ◌=ˢ◌, map, select, map_some,
}
use hufi_agents.Js.Text.{Text, units, join}
use hufi_agents.Agents.Names.{humanize_id}
use hufi_agents.OrgData.Types.{Agent, Relationship, Team, Project, Resource}
use hufi_agents.OrgData.Store.{Store, relationships_for}
use hufi_agents.Rooms.Open.{Wanted}
use hufi_agents.Cards.Lookup.{
  resolve_agent, resolve_team, resolve_resource, set_of, concat_map, names_or, or_default, name_or,
  ◌++ˢ◌,
}
use hufi_agents.Cards.Team.{ends_in}

-- `workRels`
unfoldable pub work_rels : Store → (project : String) → List Relationship
unfolding relationships_for
work_rels s project =
    select (ends_in "works_on_project" "project" project) (relationships_for "project" project s)

-- `primaryRels`, or all of them when there are none.
abbrev pub primary_or_all : List Relationship → List Relationship → List Relationship
primary_or_all all [] = all
primary_or_all all (r ∷ rs) = r ∷ rs

unfoldable pub lead_agents : List Agent → Store → (project : String) → List Agent
unfolding work_rels resolve_agent
lead_agents agents s project =
    let all = work_rels s project in
    map_some (λ r. resolve_agent agents s r.source_id)
      (primary_or_all all (select (λ r. r.primary) all))

-- The relationships of the agent of a relationship, if the agent is known.
abbrev pub held_by : Store → (String → Relationship → Bool) → Option Agent → List String
held_by s p none = []
held_by s p (some a) = map (λ r. r.target_id) (select (p a.id) (relationships_for "agent" a.id s))

-- What the agents that work on a project are related to, each once.
unfoldable pub reached :
    List Agent → Store → (String → Relationship → Bool) → (project : String) → List String
unfolding work_rels resolve_agent relationships_for set_of
reached agents s p project = set_of [] (
    concat_map (λ (r : Relationship). held_by s p (resolve_agent agents s r.source_id))
      (work_rels s project))

abbrev pub in_team : String → Relationship → Bool
in_team a r = r.relationship_type =ˢ "member_of_team" && r.source_id =ˢ a

abbrev pub touches_resource : String → Relationship → Bool
touches_resource a r =
    (r.relationship_type =ˢ "responsible_for_resource" || r.relationship_type =ˢ "may_use_resource")
    && r.source_id =ˢ a

unfoldable pub project_teams : List Agent → Store → (project : String) → List Team
unfolding reached resolve_team
project_teams agents s project = map_some (resolve_team s) (reached agents s in_team project)

unfoldable pub team_label : List Team → Text
team_label [] = units "Noch keinem Team zugeordnet."
team_label (t ∷ []) = units t.name
team_label (_ ∷ _ ∷ _) = units "Mehrere Teams beteiligt."

unfoldable pub project_resources : List Agent → Store → (project : String) → List Resource
unfolding reached resolve_resource
project_resources agents s project =
    map_some (resolve_resource s) (reached agents s touches_resource project)

pub record ProjectCard : Type 0 where
  pub title : Text
  pub description : Text
  pub team : Text
  pub leads_label : Text
  pub leads : Text
  pub resources : Text
  pub chat : Wanted

abbrev leads_heading : List Relationship → Text
leads_heading [] = units "Beteiligte Hufis"
leads_heading (_ ∷ _) = units "Verantwortlich"

abbrev lead_names : List Agent → Text
lead_names [] = units "Noch niemand zugewiesen."
lead_names (a ∷ l) = join (units ", ") (map (λ x. humanize_id (units x.id)) (a ∷ l))

unfoldable pub render_project_card : List Agent → Store → Project → ProjectCard
unfolding work_rels lead_agents project_teams team_label project_resources names_or
render_project_card agents s project = record {
  title = or_default project.name "Unbenanntes Projekt";
  description = or_default project.description "Keine Beschreibung.";
  team = team_label (project_teams agents s project.id);
  leads_label = leads_heading (select (λ r. r.primary) (work_rels s project.id));
  leads = lead_names (lead_agents agents s project.id);
  resources =
      names_or (map (λ r. r.name) (project_resources agents s project.id))
        "Keine verknüpften Ressourcen.";
  chat = record {
    room_type = "project";
    host_type = "project";
    host_id = project.id;
    name = name_or project.name "Unbenanntes Projekt" ++ˢ " Projektchat";
  };
}
