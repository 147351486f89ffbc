-- ===== src/Cards/Reached.antt =====
-- The teams and resources on a project's card in api/static/cards.js.
use hufi_agents.Prelude.{
  String, ◌≡◌, refl, inl, inr, Bool, true, List, [], Option, none, some, select, At, At-select,
  At-of_select,
}
use hufi_agents.OrgData.Types.{Agent, Relationship, State}
use hufi_agents.OrgData.Store.{Store, relationships_for, touches}
use hufi_agents.Cards.Lookup.{resolve_agent, concat_map}
use hufi_agents.Cards.Team.{ends_in}
use hufi_agents.Cards.Project.{work_rels, held_by, reached}
use hufi_agents.Cards.Sets.{
  At-map, At-of_map, At-concat_map, At-of_concat_map, IsDistinct, IsDistinct-set_of, set_of-new,
  set_of-inv,
}

-- A target that is reached in one hop: a live relationship of an agent to the project, and a live
-- relationship of that agent to the target.
pub record Hop (agents : List Agent) (s : Store) (st : State) (p : String → Relationship → Bool)
    (project target : String) : Type 0 where
  pub work : Relationship
  pub agent : Agent
  pub tie : Relationship
  pub work_at : At work st.relationships
  pub work_touches : touches "project" project work ≡ true
  pub work_ends : ends_in "works_on_project" "project" project work ≡ true
  pub known : resolve_agent agents s work.source_id ≡ some agent
  pub tie_at : At tie st.relationships
  pub tie_touches : touches "agent" agent.id tie ≡ true
  pub tie_fits : p agent.id tie ≡ true
  pub target_lem : target ≡ tie.target_id

loaded_relationships :
    (kind id : String) (s : Store) (st : State)
    → s.state ≡ some st
    → relationships_for kind id s ≡ select (touches kind id) st.relationships
unfolding relationships_for
loaded_relationships kind id s st h = rw (h, relationships_for) refl

module _ (agents : List Agent) (s : Store) (st : State) (p : String → Relationship → Bool)
    (project : String) (loaded : s.state ≡ some st) where
  At-held_by :
      {target : String} (o : Option Agent) (a : Agent) (tie : Relationship)
      → o ≡ some a
      → At tie st.relationships
      → touches "agent" a.id tie ≡ true
      → p a.id tie ≡ true
      → target ≡ tie.target_id
      → At target (held_by s p o)
  At-held_by {target} o a tie k m t f q =
      rw (k, loaded_relationships "agent" a.id s st loaded, q)
        (At-map (λ r. r.target_id) (At-select (p a.id) (At-select (touches "agent" a.id) m t) f))

  At-work_rels :
      (work : Relationship)
      → At work st.relationships
      → touches "project" project work ≡ true
      → ends_in "works_on_project" "project" project work ≡ true
      → At work (work_rels s project)
  unfolding work_rels
  At-work_rels work m t e = rw (loaded_relationships "project" project s st loaded) (
      At-select (ends_in "works_on_project" "project" project)
        (At-select (touches "project" project) m t) e)

  At-reached :
      (target : String) → Hop agents s st p project target → At target (reached agents s p project)
  unfolding reached
  At-reached target h = set_of-new [] _ (
      At-concat_map (λ (r : Relationship). held_by s p (resolve_agent agents s r.source_id))
        (At-work_rels h.work h.work_at h.work_touches h.work_ends)
        (At-held_by (resolve_agent agents s h.work.source_id) h.agent h.tie h.known h.tie_at
          h.tie_touches h.tie_fits h.target_lem))

  Hop-held_by :
      (target : String) (work : Relationship) (o : Option Agent)
      → At work (work_rels s project)
      → resolve_agent agents s work.source_id ≡ o
      → At target (held_by s p o)
      → Hop agents s st p project target
  unfolding work_rels
  Hop-held_by target work none w k m = elim m [ ]
  Hop-held_by target work (some a) w k m =
      let (tie, n, q) = At-of_map (λ r. r.target_id) _ m in
      let (n', f) = At-of_select (p a.id) (relationships_for "agent" a.id s) n in
      let (i, t) =
        At-of_select (touches "agent" a.id) st.relationships
          (rw (loaded_relationships "agent" a.id s st loaded) at n') in
      let (w', e) =
        At-of_select (ends_in "works_on_project" "project" project)
          (relationships_for "project" project s) w in
      let (i', t') =
        At-of_select (touches "project" project) st.relationships
          (rw (loaded_relationships "project" project s st loaded) at w') in
      record {
        work = work;
        agent = a;
        tie = tie;
        work_at = i';
        work_touches = t';
        work_ends = e;
        known = k;
        tie_at = i;
        tie_touches = t;
        tie_fits = f;
        target_lem = q;
      }

  Hop-of_reached :
      (target : String) → At target (reached agents s p project) → Hop agents s st p project target
  unfolding reached
  Hop-of_reached target m = elim (set_of-inv [] _ m) [
    | inl n ↦ elim n [ ]
    | inr n ↦
        let (work, w, k) =
          At-of_concat_map (λ (r : Relationship). held_by s p (resolve_agent agents s r.source_id))
            _ n in
        Hop-held_by target work (resolve_agent agents s work.source_id) w refl k
  ]

  pub reached-Hop :
      (target : String)
      → (At target (reached agents s p project) → Hop agents s st p project target)
        × (Hop agents s st p project target → At target (reached agents s p project))
  reached-Hop target = (Hop-of_reached target, At-reached target)

  pub reached-IsDistinct : IsDistinct (reached agents s p project)
  unfolding reached
  reached-IsDistinct =
      IsDistinct-set_of []
        (concat_map (λ (r : Relationship). held_by s p (resolve_agent agents s r.source_id))
          (work_rels s project))
        tt
