-- ===== src/Tests/Cards.antt =====
-- Examples of the cards and rooms: api/static/cards.js and api/static/rooms.js.
use hufi_agents.Prelude.{
  String, ◌≡◌, refl, Bool, true, false, List, [], ◌∷◌, some, none, select, At, here,
}
use hufi_agents.Js.Text.{units}
use hufi_agents.OrgData.Types.{Agent, Relationship, Team, Project, Resource, Room, State}
use hufi_agents.OrgData.Store.{ok, err, Store, get_team_by_id}
use hufi_agents.Rooms.Header.{resolve_participants}
use hufi_agents.Cards.Team.{members}
use hufi_agents.Cards.Project.{
  work_rels, lead_agents, in_team, reached, project_teams, render_project_card,
}
use hufi_agents.Cards.Lookup.{resolve_team, resolve_resource}
use hufi_agents.Cards.Ways.{IsMembership, IsAccess, Way}
use hufi_agents.Cards.Named.{TellsTeams, TellsResources, IsReached, project_card_names}
use hufi_agents.Cards.Chat.{chat_members}
use hufi_agents.Cards.Tile.{
  opens, link_button, link_of, Registered, registry_resource, load_registry_projects,
  render_resource_tile,
}
use hufi_agents.Cards.Safe.{IsWeb, registry_links}
use hufi_agents.Cards.View.{Event, shows, hides, changes_data, gets_registry}
use hufi_agents.Cards.Fresh.{Fresh}
use hufi_agents.Cards.Link.{to_https_github_url}

ssh_link :
    to_https_github_url (units "git@github.com:a/b.git") [] ≡ some (units "https://github.com/a/b")
unfolding to_https_github_url
ssh_link = refl

http_link :
    to_https_github_url (units "http://x.y/r.git") (units "a b/c") ≡ some (units "http://x.y/r")
unfolding to_https_github_url
http_link = refl

named_link : to_https_github_url [] (units "a/b") ≡ some (units "https://github.com/a/b")
unfolding to_https_github_url
named_link = refl

no_link : to_https_github_url (units "javascript:http://x") [] ≡ none
unfolding to_https_github_url
no_link = refl

abbrev builder : Agent
builder = record { id = "builder"; role = ""; status = "active" }

-- The builder works on the project p1 and belongs to the team t1.
abbrev works : Relationship
works = record {
  id = "r1";
  relationship_type = "works_on_project";
  source_type = "agent";
  source_id = "builder";
  target_type = "project";
  target_id = "p1";
  primary = false;
  removed_at = none;
}

abbrev belongs : Relationship
belongs = record {
  id = "r2";
  relationship_type = "member_of_team";
  source_type = "agent";
  source_id = "builder";
  target_type = "team";
  target_id = "t1";
  primary = false;
  removed_at = none;
}

abbrev company : State
company = record {
  agents = builder ∷ [];
  org_units = [];
  teams =
      record {
        id = "t1";
        name = "Marketing";
        description = "";
        status = "active";
        archived_at = none;
      }
      ∷ [];
  graph_projects = [];
  resources = [];
  relationships = works ∷ belongs ∷ [];
  rooms = [];
  mock = false;
  unavailable = false;
}

abbrev company_store : Store
company_store = record { state = some company; listeners = []; calls = [] }

reaches_team : reached [] company_store in_team "p1" ≡ "t1" ∷ []
unfolding reached
reaches_team = refl

abbrev website : Project
website = record {
  id = "p1";
  name = "Website";
  description = "";
  repository_ref = none;
  status = "active";
  archived_at = none;
}

tells_team : (render_project_card [] company_store website).team ≡ units "Marketing"
unfolding render_project_card project_teams reached resolve_team get_team_by_id
tells_team = refl

project_card_names_example :
    (teams : List Team) × (resources : List Resource) × TellsTeams teams
      (render_project_card [] company_store website).team
    × TellsResources resources (render_project_card [] company_store website).resources
    × IsReached
        (λ t. t.id)
        (resolve_team company_store)
        (Way [] company_store company IsMembership "p1")
        teams
    × IsReached
        (λ r. r.id)
        (resolve_resource company_store)
        (Way [] company_store company IsAccess "p1")
        resources
project_card_names_example = project_card_names [] company_store company website refl

abbrev team_chat : Room
team_chat = record {
  id = "room-1";
  room_type = "team";
  host_type = "team";
  host_id = "t1";
  name = "Teamchat";
}

team_of_one : members [] company_store "t1" ≡ builder ∷ []
unfolding members
team_of_one = refl

chat_members_example :
    (team_chat.room_type ≡ "team"
      → members company.agents company_store team_chat.host_id
        ≡ resolve_participants company_store team_chat)
    × (team_chat.room_type ≡ "project"
        → select (λ r. r.primary) (work_rels company_store team_chat.host_id) ≡ []
        → lead_agents company.agents company_store team_chat.host_id
          ≡ resolve_participants company_store team_chat)
chat_members_example = chat_members company_store company refl refl team_chat

abbrev row : Registered
row = record {
  id = "7";
  repo_url = "git@github.com:a/b.git";
  github_repo = "";
  allowed = true;
  has_test = true;
  has_build = false;
  has_lint = false;
}

opens_repo :
    link_button "Öffnen" [] (link_of (registry_resource row))
    ≡ record { label = "Öffnen"; action = opens (units "https://github.com/a/b") }
unfolding link_of registry_resource to_https_github_url
opens_repo = refl

loads_row : load_registry_projects (ok (row ∷ [])) ≡ some (registry_resource row ∷ [])
unfolding load_registry_projects
loads_row = refl

first_button :
    At
      (record { label = "Öffnen"; action = opens (units "https://github.com/a/b") })
      (render_resource_tile false (registry_resource row)).buttons
unfolding render_resource_tile registry_resource link_of to_https_github_url
first_button = here

registry_links_example : IsWeb (units "https://github.com/a/b")
registry_links_example =
    registry_links (ok (row ∷ [])) (registry_resource row ∷ []) (registry_resource row) false
      (record { label = "Öffnen"; action = opens (units "https://github.com/a/b") })
      (units "https://github.com/a/b") loads_row here first_button refl

abbrev le : String → String → Bool
le a b = true

abbrev visit : List (Event le)
visit =
    shows
    ∷ changes_data company_store
    ∷ gets_registry 0 (ok (row ∷ []))
    ∷ hides
    ∷ shows
    ∷ gets_registry 0 (err (units "offline"))
    ∷ []
