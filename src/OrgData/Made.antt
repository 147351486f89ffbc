-- ===== src/OrgData/Made.antt =====
-- What a request that changes the organisation makes of it: the operations of api/static/org-data.js.
use hufi_agents.Prelude.{
  ℕ, String, ◌≡◌, ◌⊎◌, true, false, List, [], ◌∷◌, ◌++◌, none, some, ◌=ˢ◌, All,
}
use hufi_agents.OrgData.Types.{Team, Project, Resource, Relationship, Room, State}
use hufi_agents.OrgData.Store.{Reply, ok, Outcome, returned, thrown, Store}
use hufi_agents.OrgData.Mutations.{Request, team, project, resource, room, add, remove, Told}

-- A new item: under mock data the one that is given here, and else the one of the backend's answer.
abbrev pub Comes {ℓ} : {A : Type ℓ} → State → A → Reply A → A → Type ℓ
Comes st mock_item reply a =
    ((st.mock ≡ true) × (a ≡ mock_item)) ⊎ ((st.mock ≡ false) × (reply ≡ ok a))

-- The first relationship with the identifier, if there is one, is marked and all else is kept.
abbrev pub Removes : ℕ → String → List Relationship → List Relationship → Type 0
Removes now id rs rs' =
    ((before : List Relationship) × (r : Relationship) × (behind : List Relationship) × (rs
        ≡ before ++ r ∷ behind)
      × ((r.id =ˢ id) ≡ true)
      × All (λ x. (x.id =ˢ id) ≡ false) before
      × (rs' ≡ before ++ record r { removed_at = some now } ∷ behind))
    ⊎ (All (λ x. (x.id =ˢ id) ≡ false) rs × (rs' ≡ rs))

-- What a request makes of the organisation: one new item at the end of its list, or a mark.
abbrev pub Made : Request → State → State → Type 0
Made (team mock_id name description reply) st st' =
    (t : Team) × (st' ≡ record st { teams = st.teams ++ t ∷ [] })
    × Comes st
        (record {
          id = mock_id;
          name = name;
          description = description;
          status = "active";
          archived_at = none;
        })
        reply t
Made (project mock_id name description repository reply) st st' =
    (p : Project) × (st' ≡ record st { graph_projects = st.graph_projects ++ p ∷ [] })
    × Comes st
        (record {
          id = mock_id;
          name = name;
          description = description;
          repository_ref = repository;
          status = "active";
          archived_at = none;
        })
        reply p
Made (resource now mock_id name resource_type description metadata reply) st st' =
    (r : Resource) × (st' ≡ record st { resources = st.resources ++ r ∷ [] })
    × Comes st
        (record {
          id = mock_id;
          name = name;
          resource_type = resource_type;
          description = description;
          metadata = metadata;
          status = "active";
          created_at = some now;
          archived_at = none;
        })
        reply r
Made (room mock_id room_type host_type host_id name reply) st st' =
    (r : Room) × (st' ≡ record st { rooms = st.rooms ++ r ∷ [] })
    × Comes st
        (record {
          id = mock_id;
          room_type = room_type;
          host_type = host_type;
          host_id = host_id;
          name = name;
        })
        reply r
Made (add mock_id e reply) st st' =
    (r : Relationship) × (st' ≡ record st { relationships = st.relationships ++ r ∷ [] })
    × Comes st
        (record {
          id = mock_id;
          relationship_type = e.relationship_type;
          source_type = e.source_type;
          source_id = e.source_id;
          target_type = e.target_type;
          target_id = e.target_id;
          primary = e.primary;
          removed_at = none;
        })
        reply r
Made (remove now id reply) st st' =
    (rs : List Relationship) × (st' ≡ record st { relationships = rs })
    × Removes now id st.relationships rs

-- A request has finished, with what it makes, and the listeners are told; or it has thrown, and the
-- store is what it was.
abbrev pub Performed : Request → Store → Store × Outcome (Unit {0}) → Type 0
Performed q s (s', returned u) =
    (st : State) × (st' : State) × (s.state ≡ some st)
    × (s'.state ≡ some st')
    × Made q st st'
    × Told s s'
Performed q s (s', thrown e) = s' ≡ s
