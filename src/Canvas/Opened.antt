-- ===== src/Canvas/Opened.antt =====
-- Every node of the graph opens the panel of what it stands for: `buildElements` and `selectNode` of
-- api/static/org-canvas.js.
use hufi_agents.Prelude.{
  ◌≡◌, refl, ◌∙◌, inl, inr, String, Bool, List, [], ◌∷◌, Option, none, some, Bool-cases, All,
  All-append, All-select, arith,
}
use hufi_agents.Js.Text.{Text}
use hufi_agents.OrgData.Types.{Agent, Team, Project, Resource, Relationship, State}
use hufi_agents.OrgData.Store.{Store, get_team_by_id, get_project_by_id, get_resource_by_id}
use hufi_agents.Canvas.Elements.{
  Subview, organisation, teams, projekte, ressourcen, liste, Node, EdgeLine, Elements, no_elements,
  has, add_node, add_nodes, agent_node, team_node, project_node, resource_node, add_edge_if_present,
  add_edges, by_source, add_reports, owner_node, add_implicit, lens, build_elements, member_edge,
  work_edge, resource_edge, rel_of_type, active,
}
use hufi_agents.Canvas.Select.{
  get_all_agents, Pane, open_agent_detail, open_team_detail, open_project_detail,
  open_resource_detail, select_node,
}
use hufi_agents.Canvas.Known.{HasOnce, find-HasOnce, Known, get_all_agents-Known, HasDistinct}

module _ (sidebar : List Agent) (s : Store) (has_cards : Bool) where
  abbrev title_of : Option Pane → Option Text
  title_of none = none
  title_of (some p) = some p.title

  -- The node opens a panel with the label of the node for its title.
  abbrev pub Opens : Node → Type 0
  Opens n = title_of (select_node sidebar s has_cards n) ≡ some n.label

  add_node-Opens :
      (n : Node) (e : Elements) → Opens n → All Opens e.nodes → All Opens (add_node n e).nodes
  unfolding add_node
  add_node-Opens n e o h = elim (Bool-cases (has e.seen n.id)) [
    | inl t ↦ rw t h
    | inr f ↦ rw f (All-append Opens e.nodes (n ∷ []) h (o, tt))
  ]

  add_nodes-Opens {ℓ} :
      {A : Type ℓ} (f : A → Node) (l : List A) (e : Elements)
      → All (λ a. Opens (f a)) l
      → All Opens e.nodes
      → All Opens (add_nodes f l e).nodes
  unfolding add_nodes
  add_nodes-Opens f [] e o h = h
  add_nodes-Opens f (a ∷ l) e o h =
      add_nodes-Opens f l (add_node (f a) e) o.1 (add_node-Opens (f a) e o.0 h)

  agent_node-Opens : (a : Agent) → Known sidebar s a → Opens (agent_node a)
  unfolding select_node open_agent_detail
  agent_node-Opens a (b, e, i) = rw (e, i) refl

  owner-Opens : Opens owner_node
  unfolding select_node
  owner-Opens = refl

  team_node-Opens : (t : Team) → get_team_by_id s t.id ≡ some t → Opens (team_node t)
  unfolding select_node open_team_detail
  team_node-Opens t e = rw e refl

  project_node-Opens : (p : Project) → get_project_by_id s p.id ≡ some p → Opens (project_node p)
  unfolding select_node open_project_detail
  project_node-Opens p e = rw e refl

  resource_node-Opens :
      (r : Resource) → get_resource_by_id s r.id ≡ some r → Opens (resource_node r)
  unfolding select_node open_resource_detail
  resource_node-Opens r e = rw e refl

  nodes-add_edges :
      (f : Relationship → EdgeLine) (rs : List Relationship) (e : Elements)
      → (add_edges f rs e).nodes ≡ e.nodes
  unfolding add_edges add_edge_if_present
  nodes-add_edges f [] e = refl
  nodes-add_edges f (r ∷ rs) e = nodes-add_edges f rs _ ∙ ground arith

  nodes-add_reports :
      (m : List (String × Relationship)) (e : Elements) → (add_reports m e).nodes ≡ e.nodes
  unfolding add_reports add_edge_if_present
  nodes-add_reports [] e = refl
  nodes-add_reports ((k, r) ∷ m) e = nodes-add_reports m _ ∙ ground arith

  nodes-add_implicit :
      (m : List (String × Relationship)) (l : List Agent) (e : Elements)
      → (add_implicit m l e).nodes ≡ e.nodes
  unfolding add_implicit
  nodes-add_implicit m [] e = refl
  nodes-add_implicit m (a ∷ l) e = nodes-add_implicit m l _ ∙ ground arith

  All-map {ℓ} :
      {A : Type ℓ} {P Q : A → Type 0} (l : List A) → ((a : A) → P a → Q a) → All P l → All Q l
  All-map [] f h = tt
  All-map (a ∷ l) f h = (f a h.0, All-map l f h.1)

  agents-Opens :
      (st : State) → s.state ≡ some st → All (λ a. Opens (agent_node a)) (get_all_agents sidebar s)
  agents-Opens st h =
      All-map (get_all_agents sidebar s) agent_node-Opens (get_all_agents-Known sidebar s st h)

  teams-Opens :
      (st : State)
      → s.state ≡ some st
      → HasOnce (λ t. t.id) st.teams
      → All (λ t. Opens (team_node t)) (active (λ t. t.status) st.teams)
  unfolding get_team_by_id
  teams-Opens st h o =
      All-select _ _ st.teams
        (All-map st.teams (λ t e. team_node-Opens t (rw h e)) (find-HasOnce (λ t. t.id) st.teams o))

  projects-Opens :
      (st : State)
      → s.state ≡ some st
      → HasOnce (λ p. p.id) st.graph_projects
      → All (λ p. Opens (project_node p)) (active (λ p. p.status) st.graph_projects)
  unfolding get_project_by_id
  projects-Opens st h o = All-select _ _ st.graph_projects (
      All-map st.graph_projects (λ p e. project_node-Opens p (rw h e))
        (find-HasOnce (λ p. p.id) st.graph_projects o))

  resources-Opens :
      (st : State)
      → s.state ≡ some st
      → HasOnce (λ r. r.id) st.resources
      → All (λ r. Opens (resource_node r)) (active (λ r. r.status) st.resources)
  unfolding get_resource_by_id
  resources-Opens st h o = All-select _ _ st.resources (
      All-map st.resources (λ r e. resource_node-Opens r (rw h e))
        (find-HasOnce (λ r. r.id) st.resources o))

  lens-Opens :
      (v : Subview) (st : State)
      → s.state ≡ some st
      → HasDistinct st
      → All Opens (lens v (get_all_agents sidebar s) st).nodes
  unfolding lens
  lens-Opens organisation st h (t, p, r) =
      let reports = by_source (rel_of_type "reports_to" st) [] in
      rw (nodes-add_implicit reports (get_all_agents sidebar s) _, nodes-add_reports reports _)
        (add_nodes-Opens agent_node _ _ (agents-Opens st h)
          (add_node-Opens owner_node no_elements owner-Opens tt))
  lens-Opens teams st h (t, p, r) =
      rw (nodes-add_edges member_edge (rel_of_type "member_of_team" st) _) (
        add_nodes-Opens agent_node _ _ (agents-Opens st h)
          (add_nodes-Opens team_node _ no_elements (teams-Opens st h t) tt))
  lens-Opens projekte st h (t, p, r) =
      rw (nodes-add_edges work_edge (rel_of_type "works_on_project" st) _) (
        add_nodes-Opens agent_node _ _ (agents-Opens st h)
          (add_nodes-Opens project_node _ no_elements (projects-Opens st h p) tt))
  lens-Opens ressourcen st h (t, p, r) =
      rw
        (
          nodes-add_edges (resource_edge "may_use_resource") (rel_of_type "may_use_resource" st) _,
          nodes-add_edges (resource_edge "responsible_for_resource")
              (rel_of_type "responsible_for_resource" st) _,
        )
        (add_nodes-Opens team_node _ _ (teams-Opens st h t) (
          add_nodes-Opens agent_node _ _ (agents-Opens st h)
            (add_nodes-Opens resource_node _ no_elements (resources-Opens st h r) tt)))
  lens-Opens liste st h d = tt

-- In every lens, when no team, project or resource shares its identifier with another of its kind,
-- selecting any node that is drawn opens a panel whose title is the label of the node.
pub nodes_open :
    (sidebar : List Agent) (s : Store) (has_cards : Bool) (v : Subview) (st : State)
    → s.state ≡ some st
    → HasDistinct st
    → All (Opens sidebar s has_cards) (build_elements v (get_all_agents sidebar s) (some st)).nodes
unfolding build_elements
nodes_open sidebar s has_cards v st h o = lens-Opens sidebar s has_cards v st h o
