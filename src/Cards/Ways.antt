-- ===== src/Cards/Ways.antt =====
-- The ways over the agents of a project that the card of api/static/cards.js follows:
-- `renderProjectCard`.
use hufi_agents.Prelude.{
  String, ◌≡◌, refl, ◌⊎◌, inl, inr, Bool, true, ◌||◌, List, none, some, Option-cases, Bool-cases,
  ◌=ˢ◌, At, eq_iff, eq_refl, arith,
}
use hufi_agents.OrgData.Types.{Agent, Relationship, State}
use hufi_agents.OrgData.Store.{Store, is_live, touches}
use hufi_agents.Cards.Lookup.{resolve_agent}
use hufi_agents.Cards.Project.{in_team, touches_resource}
use hufi_agents.Cards.Reached.{Hop}

abbrev pub IsMembership : String → Type 0
IsMembership t = t ≡ "member_of_team"

abbrev pub IsAccess : String → Type 0
IsAccess t = (t ≡ "responsible_for_resource") ⊎ (t ≡ "may_use_resource")

-- A way from a project to a target: a relationship that has not been removed says that an agent
-- works on the project, the agent is known, and a relationship that has not been removed leads from
-- it to the target and has one of the given types.
pub record Way (agents : List Agent) (s : Store) (st : State) (T : String → Type 0)
    (project target : String) : Type 0 where
  pub work : Relationship
  pub agent : Agent
  pub tie : Relationship
  pub work_at : At work st.relationships
  pub work_kept : work.removed_at ≡ none
  pub work_type : work.relationship_type ≡ "works_on_project"
  pub work_target : (work.target_type ≡ "project") × (work.target_id ≡ project)
  pub known : resolve_agent agents s work.source_id ≡ some agent
  pub tie_at : At tie st.relationships
  pub tie_kept : tie.removed_at ≡ none
  pub tie_type : T tie.relationship_type
  pub tie_source : tie.source_id ≡ agent.id
  pub tie_agent :
      (tie.source_type ≡ "agent") ⊎ ((tie.target_type ≡ "agent") × (tie.target_id ≡ agent.id))
  pub tie_target : target ≡ tie.target_id

live-kept : (r : Relationship) → is_live r ≡ true → r.removed_at ≡ none
live-kept r h = elim (Option-cases r.removed_at) [
  | inl e ↦ e
  | inr (t, e) ↦ absurd (ground (arith, h, e))
]

kept-live : (r : Relationship) → r.removed_at ≡ none → is_live r ≡ true
kept-live r h = rw h refl

-- The test that the code makes of a relationship of an agent, and the types that it lets pass.
abbrev pub Tests : (String → Relationship → Bool) → (String → Type 0) → Type 0
Tests p T =
    ((a : String) (r : Relationship) → p a r ≡ true → T r.relationship_type × (r.source_id ≡ a))
    × ((a : String) (r : Relationship) → T r.relationship_type → r.source_id ≡ a → p a r ≡ true)

pub in_team-Tests : Tests in_team IsMembership
in_team-Tests = (
  λ a r h. (
    (eq_iff r.relationship_type "member_of_team").0 (ground (arith, h)),
    (eq_iff r.source_id a).0 (ground (arith, h)),
  ),
  λ a r t e. rw (t, e, eq_refl a) refl,
)

pub touches_resource-Tests : Tests touches_resource IsAccess
touches_resource-Tests = (
  λ a r h. (access r (ground (arith, h)), (eq_iff r.source_id a).0 (ground (arith, h))),
  λ a r t e. elim t [ inl k ↦ rw (k, e, eq_refl a) refl | inr k ↦ rw (k, e, eq_refl a) refl ],
)
  where
    access :
        (r : Relationship)
        → (r.relationship_type =ˢ "responsible_for_resource"
            || r.relationship_type =ˢ "may_use_resource")
          ≡ true
        → IsAccess r.relationship_type
    access r h = elim (Bool-cases (r.relationship_type =ˢ "responsible_for_resource")) [
      | inl t ↦ inl ((eq_iff r.relationship_type "responsible_for_resource").0 t)
      | inr f ↦ inr ((eq_iff r.relationship_type "may_use_resource").0 (ground (arith, h, f)))
    ]

module _ (agents : List Agent) (s : Store) (st : State) (p : String → Relationship → Bool)
    (T : String → Type 0) (test : Tests p T) (project target : String) where
  tie_end :
      (a : String) (r : Relationship)
      → touches "agent" a r ≡ true
      → (r.source_type ≡ "agent") ⊎ ((r.target_type ≡ "agent") × (r.target_id ≡ a))
  tie_end a r h = elim (Bool-cases (r.source_type =ˢ "agent")) [
    | inl t ↦ inl ((eq_iff r.source_type "agent").0 t)
    | inr f ↦ inr (
      (eq_iff r.target_type "agent").0 (ground (arith, h, f)),
      (eq_iff r.target_id a).0 (ground (arith, h, f)),
    )
  ]

  pub Way-of_Hop : Hop agents s st p project target → Way agents s st T project target
  Way-of_Hop h = record {
    work = h.work;
    agent = h.agent;
    tie = h.tie;
    work_at = h.work_at;
    work_kept = live-kept h.work (ground (arith, h.work_touches));
    work_type =
        (eq_iff h.work.relationship_type "works_on_project").0 (ground (arith, h.work_ends));
    work_target = (
      (eq_iff h.work.target_type "project").0 (ground (arith, h.work_ends)),
      (eq_iff h.work.target_id project).0 (ground (arith, h.work_ends)),
    );
    known = h.known;
    tie_at = h.tie_at;
    tie_kept = live-kept h.tie (ground (arith, h.tie_touches));
    tie_type = (test.0 h.agent.id h.tie h.tie_fits).0;
    tie_source = (test.0 h.agent.id h.tie h.tie_fits).1;
    tie_agent = tie_end h.agent.id h.tie h.tie_touches;
    tie_target = h.target_lem;
  }

  tie_touched :
      (a : String) (r : Relationship)
      → r.removed_at ≡ none
      → r.source_id ≡ a
      → (r.source_type ≡ "agent") ⊎ ((r.target_type ≡ "agent") × (r.target_id ≡ a))
      → touches "agent" a r ≡ true
  tie_touched a r k e (inl t) = rw (kept-live r k, t, e, eq_refl a) refl
  tie_touched a r k e (inr (t, i)) =
      ground (arith, kept-live r k, (eq_iff r.target_type "agent").1 t, (eq_iff r.target_id a).1 i)

  pub Hop-of_Way : Way agents s st T project target → Hop agents s st p project target
  Hop-of_Way w = record {
    work = w.work;
    agent = w.agent;
    tie = w.tie;
    work_at = w.work_at;
    work_touches = ground (
      arith,
      kept-live w.work w.work_kept,
      (eq_iff w.work.target_type "project").1 w.work_target.0,
      (eq_iff w.work.target_id project).1 w.work_target.1,
    );
    work_ends = ground (
      arith,
      (eq_iff w.work.relationship_type "works_on_project").1 w.work_type,
      (eq_iff w.work.target_type "project").1 w.work_target.0,
      (eq_iff w.work.target_id project).1 w.work_target.1,
    );
    known = w.known;
    tie_at = w.tie_at;
    tie_touches = tie_touched w.agent.id w.tie w.tie_kept w.tie_source w.tie_agent;
    tie_fits = test.1 w.agent.id w.tie w.tie_type w.tie_source;
    target_lem = w.tie_target;
  }
