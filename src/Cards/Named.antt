-- ===== src/Cards/Named.antt =====
-- What the card of a project in api/static/cards.js names: `renderProjectCard`.
use hufi_agents.Prelude.{
  String, ◌≡◌, refl, ap, Bool, List, [], ◌∷◌, Option, none, some, ◌=ˢ◌, map, map_some, find,
  find_sound, At, eq_iff, arith,
}
use hufi_agents.Js.Text.{Text, units, join}
use hufi_agents.OrgData.Types.{Agent, Relationship, Team, Project, Resource, State}
use hufi_agents.OrgData.Store.{Store, get_team_by_id, get_resource_by_id}
use hufi_agents.Cards.Lookup.{resolve_team, resolve_resource, names_or}
use hufi_agents.Cards.Project.{
  in_team, touches_resource, reached, project_teams, project_resources, team_label,
  render_project_card,
}
use hufi_agents.Cards.Sets.{IsDistinct}
use hufi_agents.Cards.Reached.{reached-Hop, reached-IsDistinct}
use hufi_agents.Cards.Resolved.{At-map_some, At-of_map_some, IsDistinct-map_some}
use hufi_agents.Cards.Ways.{
  IsMembership, IsAccess, Way, Tests, in_team-Tests, touches_resource-Tests, Way-of_Hop, Hop-of_Way,
}

-- What the card says of the teams, and of the resources.
abbrev pub TellsTeams : List Team → Text → Type 0
TellsTeams [] text = text ≡ units "Noch keinem Team zugeordnet."
TellsTeams (t ∷ []) text = text ≡ units t.name
TellsTeams (t ∷ u ∷ l) text = text ≡ units "Mehrere Teams beteiligt."

abbrev pub TellsResources : List Resource → Text → Type 0
TellsResources [] text = text ≡ units "Keine verknüpften Ressourcen."
TellsResources (r ∷ l) text = text ≡ join (units ", ") (map (λ x. units x.name) (r ∷ l))

-- The list holds exactly what is found at the end of such a way, each once.
abbrev pub IsReached :
    {A : Type 0} → (A → String) → (String → Option A) → (String → Type 0) → List A → Type 0
IsReached {A = A} id find W l =
    ((a : A)
      → (At a l → (x : String) × W x × (find x ≡ some a))
        × ((x : String) × W x × (find x ≡ some a) → At a l))
    × IsDistinct (map id l)

resolve_team-id : (s : Store) (x : String) (t : Team) → resolve_team s x ≡ some t → t.id ≡ x
unfolding resolve_team get_team_by_id
resolve_team-id s x t h = by_state s.state h
  where
    by_state :
        (o : Option State)
        → elim o [ none ↦ none | some st ↦ find (λ a. a.id =ˢ x) st.teams ] ≡ some t
        → t.id ≡ x
    by_state none e = absurd (ground (arith, e))
    by_state (some st) e = (eq_iff t.id x).0 (find_sound (λ a. a.id =ˢ x) st.teams e)

resolve_resource-id :
    (s : Store) (x : String) (r : Resource) → resolve_resource s x ≡ some r → r.id ≡ x
unfolding resolve_resource get_resource_by_id
resolve_resource-id s x r h = by_state s.state h
  where
    by_state :
        (o : Option State)
        → elim o [ none ↦ none | some st ↦ find (λ a. a.id =ˢ x) st.resources ] ≡ some r
        → r.id ≡ x
    by_state none e = absurd (ground (arith, e))
    by_state (some st) e = (eq_iff r.id x).0 (find_sound (λ a. a.id =ˢ x) st.resources e)

module _ (agents : List Agent) (s : Store) (st : State) (loaded : s.state ≡ some st)
    (project : String) where
  resolved-IsReached :
      {A : Type 0} (p : String → Relationship → Bool) (T : String → Type 0)
      → Tests p T
      → (id : A → String) (find : String → Option A)
      → ((x : String) (a : A) → find x ≡ some a → id a ≡ x)
      → IsReached id find (Way agents s st T project) (map_some find (reached agents s p project))
  resolved-IsReached {A = A} p T test id find same = (
    λ a. (forth a, back a),
    IsDistinct-map_some find id same (reached agents s p project)
        (reached-IsDistinct agents s st p project loaded),
  )
    where
      forth :
          (a : A)
          → At a (map_some find (reached agents s p project))
          → (x : String) × Way agents s st T project x × (find x ≡ some a)
      forth a m =
          let (x, k, e) = At-of_map_some find (reached agents s p project) a m in
          (
            x,
            Way-of_Hop agents s st p T test project x
                ((reached-Hop agents s st p project loaded x).0 k),
            e,
          )

      back :
          (a : A)
          → (x : String) × Way agents s st T project x × (find x ≡ some a)
          → At a (map_some find (reached agents s p project))
      back a (x, w, e) =
          At-map_some find (reached agents s p project) x a
            ((reached-Hop agents s st p project loaded x).1
              (Hop-of_Way agents s st p T test project x w))
            e

team_label-TellsTeams : (l : List Team) → TellsTeams l (team_label l)
unfolding team_label
team_label-TellsTeams [] = refl
team_label-TellsTeams (t ∷ []) = refl
team_label-TellsTeams (t ∷ u ∷ l) = refl

names-TellsResources :
    (l : List Resource)
    → TellsResources l (names_or (map (λ r. r.name) l) "Keine verknüpften Ressourcen.")
unfolding names_or
names-TellsResources [] = refl
names-TellsResources (r ∷ l) = ap (λ x. join (units ", ") (units r.name ∷ x)) (map_map l)
  where
    map_map : (l : List Resource) → map units (map (λ r. r.name) l) ≡ map (λ x. units x.name) l
    map_map [] = refl
    map_map (x ∷ l) = ap (λ y. units x.name ∷ y) (map_map l)

-- For every loaded organisation there are a list of teams and one of resources, such that the card
-- of a project names the only team, or says that there is none or that there are several, and lists
-- the names of the resources, or says that there are none; and each list holds exactly the teams,
-- or resources, that the organisation has at the end of a way from the project over an agent that
-- works on it, each once.
pub project_card_names :
    (agents : List Agent) (s : Store) (st : State) (project : Project)
    → s.state ≡ some st
    → (teams : List Team) × (resources : List Resource) × TellsTeams teams
        (render_project_card agents s project).team
      × TellsResources resources (render_project_card agents s project).resources
      × IsReached (λ t. t.id) (resolve_team s) (Way agents s st IsMembership project.id) teams
      × IsReached (λ r. r.id) (resolve_resource s) (Way agents s st IsAccess project.id) resources
unfolding render_project_card project_teams project_resources
project_card_names agents s st project h = (
  map_some (resolve_team s) (reached agents s in_team project.id),
  map_some (resolve_resource s) (reached agents s touches_resource project.id),
  team_label-TellsTeams (map_some (resolve_team s) (reached agents s in_team project.id)),
  names-TellsResources
      (map_some (resolve_resource s) (reached agents s touches_resource project.id)),
  resolved-IsReached agents s st h project.id in_team IsMembership in_team-Tests (λ t. t.id)
      (resolve_team s) (resolve_team-id s),
  resolved-IsReached agents s st h project.id touches_resource IsAccess touches_resource-Tests
      (λ r. r.id) (resolve_resource s) (resolve_resource-id s),
)
