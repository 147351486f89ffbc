-- ===== src/Cards/Chat.antt =====
-- The members on the cards of api/static/cards.js beside the participants that api/static/rooms.js
-- shows in the chat which a card opens.
use hufi_agents.Prelude.{
  String, ◌≡◌, refl, sym, ◌∙◌, ap, fun_ext, inl, inr, Bool-cases, List, [], ◌∷◌, Option, none, some,
  Option-cases, ◌=ˢ◌, find, select, map, map_some, eq_iff,
}
use hufi_agents.OrgData.Types.{Agent, Relationship, Room, State}
use hufi_agents.OrgData.Store.{Store, get_agent_by_id, relationships_for}
use hufi_agents.Rooms.Header.{ending_in, sources, participants_in, if_loaded, resolve_participants}
use hufi_agents.Cards.Lookup.{resolve_agent}
use hufi_agents.Cards.Team.{ends_in, members}
use hufi_agents.Cards.Project.{work_rels, lead_agents}

abbrev find_id : List Agent → String → Option Agent
find_id l id = find (λ a. a.id =ˢ id) l

map_some-map :
    (f : String → Option Agent) (k : Relationship → String) (l : List Relationship)
    → map_some f (map k l) ≡ map_some (λ r. f (k r)) l
map_some-map f k [] = refl
map_some-map f k (r ∷ l) = elim (Option-cases (f (k r))) [
  | inl n ↦ rw n (map_some-map f k l)
  | inr (a, e) ↦ rw e (ap (λ t. a ∷ t) (map_some-map f k l))
]

map_some-ext :
    (f g : Relationship → Option Agent)
    → ((r : Relationship) → f r ≡ g r)
    → (l : List Relationship) → map_some f l ≡ map_some g l
map_some-ext f g h l = ap (λ (k : Relationship → Option Agent). map_some k l) (fun_ext h)

module _ (s : Store) (st : State) (loaded : s.state ≡ some st)
    (no_blank : find (λ a. a.id =ˢ "") st.agents ≡ none) where
  get_agent_lem : (id : String) → get_agent_by_id s id ≡ find_id st.agents id
  unfolding get_agent_by_id
  get_agent_lem id = rw (loaded, get_agent_by_id) refl

  resolve_agent_lem : (id : String) → resolve_agent st.agents s id ≡ get_agent_by_id s id
  unfolding resolve_agent
  resolve_agent_lem id = elim (Bool-cases (id =ˢ "")) [
    | inl e ↦
        let q : id ≡ "" = (eq_iff id "").0 e in rw (e, get_agent_lem id) (rw (q, no_blank) refl)
    | inr e ↦ elim (Option-cases (find_id st.agents id)) [
      | inl n ↦ rw (e, n, resolve_agent, get_agent_lem id) (rw n refl)
      | inr (a, q) ↦ rw (e, q, resolve_agent, get_agent_lem id) (rw q refl)
    ]
  ]

  resolved :
      (l : List Relationship)
      → map_some (λ r. resolve_agent st.agents s r.source_id) l
        ≡ map_some (λ r. get_agent_by_id s r.source_id) l
  resolved l =
      map_some-ext (λ (r : Relationship). resolve_agent st.agents s r.source_id)
        (λ r. get_agent_by_id s r.source_id) (λ r. resolve_agent_lem r.source_id) l

  team_participants :
      (room : Room)
      → room.room_type ≡ "team"
      → resolve_participants s room
        ≡ sources s (
            select
              (ending_in "member_of_team" "team" room.host_id)
              (relationships_for "team" room.host_id s))
  unfolding resolve_participants participants_in
  team_participants room h = ap (λ o. if_loaded o (participants_in s room)) loaded ∙ rw (h) refl

  project_participants :
      (room : Room)
      → room.room_type ≡ "project"
      → resolve_participants s room ≡ sources s (work_rels s room.host_id)
  unfolding resolve_participants participants_in work_rels
  project_participants room h = ap (λ o. if_loaded o (participants_in s room)) loaded ∙ rw (h) refl

  team_members :
      (room : Room)
      → room.room_type ≡ "team"
      → members st.agents s room.host_id ≡ resolve_participants s room
  unfolding members
  team_members room h =
      map_some-map (resolve_agent st.agents s) (λ r. r.source_id) team_rels
      ∙ (resolved team_rels ∙ sym (team_participants room h))
    where
      team_rels : List Relationship
      team_rels =
          select (ends_in "member_of_team" "team" room.host_id)
            (relationships_for "team" room.host_id s)

  project_leads :
      (room : Room)
      → room.room_type ≡ "project"
      → select (λ r. r.primary) (work_rels s room.host_id) ≡ []
      → lead_agents st.agents s room.host_id ≡ resolve_participants s room
  unfolding lead_agents
  project_leads room h n =
      rw (n, lead_agents) (resolved (work_rels s room.host_id)) ∙ sym (project_participants room h)

  -- When the sidebar has the agents of the organisation and each has an identifier: the members on
  -- a team's card are, in order, the participants that the team's chat shows, and so are the agents
  -- on a project's card for the project's chat if none of them is marked as responsible.
  pub chat_members :
      (room : Room)
      → (room.room_type ≡ "team" → members st.agents s room.host_id ≡ resolve_participants s room)
        × (room.room_type ≡ "project"
            → select (λ r. r.primary) (work_rels s room.host_id) ≡ []
            → lead_agents st.agents s room.host_id ≡ resolve_participants s room)
  chat_members room = (team_members room, project_leads room)
