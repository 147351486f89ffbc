-- ===== src/Canvas/Graph.antt =====
-- The nodes and edges of each lens of api/static/org-canvas.js as a graph.
use hufi_agents.Prelude.{
  ℕ, ◌+◌, ◌≤◌, String, ◌≡◌, refl, ◌∙◌, true, false, ◌&&◌, inl, inr, List, [], ◌∷◌, ◌++◌, Option,
  none, some, arith, Bool-cases, ◌=ˢ◌, if◌then◌else◌, is_some, All, All-append, eq_iff, eq_refl,
}
use hufi_agents.OrgData.Types.{Agent, Relationship, State}
use hufi_agents.Canvas.Elements.{
  Subview, organisation, teams, projekte, ressourcen, liste, Node, EdgeLine, Elements, no_elements,
  has, add_node, add_nodes, agent_node, team_node, project_node, resource_node, add_edge_if_present,
  add_edges, by_source, report_edge, add_reports, owner_id, owner_node, implicit_edge, add_implicit,
  member_edge, work_edge, resource_edge, rel_of_type, map_get, lens, build_elements,
}

-- How many nodes have an identifier.
abbrev pub count_id : String → List Node → ℕ
count_id x [] = 0
count_id x (n ∷ ns) = (if n.id =ˢ x then 1 else 0) + count_id x ns

abbrev Ends : List String → EdgeLine → Type 0
Ends seen k = (has seen k.source ≡ true) × (has seen k.target ≡ true)

-- The invariant of the construction: `seen` holds the identifiers of the nodes, each node once,
-- and the edges lie between them.
record IsBuilt (e : Elements) : Type 0 where
  once : (x : String) → count_id x e.nodes ≡ (if has e.seen x then 1 else 0)
  ends : All (Ends e.seen) e.edges

count_id-append :
    (x : String) (ns ms : List Node) → count_id x (ns ++ ms) ≡ count_id x ns + count_id x ms
count_id-append x [] ms = omega arith
count_id-append x (n ∷ ns) ms = omega (arith, count_id-append x ns ms)

Ends-cons :
    (y : String) (seen : List String) (ks : List EdgeLine)
    → All (Ends seen) ks
    → All (Ends (y ∷ seen)) ks
Ends-cons y seen [] h = tt
Ends-cons y seen (k ∷ ks) h = (ground arith, Ends-cons y seen ks h.1)

new_once :
    (n : Node) (ns : List Node) (seen : List String) (x : String)
    → has seen n.id ≡ false
    → count_id x ns ≡ (if has seen x then 1 else 0)
    → count_id x (ns ++ n ∷ []) ≡ (if has (n.id ∷ seen) x then 1 else 0)
new_once n ns seen x fresh h = rw (count_id-append x ns (n ∷ [])) (ground (arith, eq_iff n.id x))

add_node-IsBuilt : (n : Node) (e : Elements) → IsBuilt e → IsBuilt (add_node n e)
unfolding add_node
add_node-IsBuilt n e b = elim (Bool-cases (has e.seen n.id)) [
  | inl old ↦ rw old b
  | inr fresh ↦ rw fresh (record {
    once = λ x. new_once n e.nodes e.seen x fresh (b.once x);
    ends = Ends-cons n.id e.seen e.edges b.ends;
  })
]

add_nodes-IsBuilt {ℓ} :
    {A : Type ℓ} (f : A → Node) (l : List A) (e : Elements) → IsBuilt e → IsBuilt (add_nodes f l e)
unfolding add_nodes
add_nodes-IsBuilt f [] e b = b
add_nodes-IsBuilt f (a ∷ r) e b =
    add_nodes-IsBuilt f r (add_node (f a) e) (add_node-IsBuilt (f a) e b)

add_edge-IsBuilt : (k : EdgeLine) (e : Elements) → IsBuilt e → IsBuilt (add_edge_if_present k e)
unfolding add_edge_if_present
add_edge-IsBuilt k e b = elim (Bool-cases (has e.seen k.source && has e.seen k.target)) [
  | inl both ↦ rw both (record {
    once = b.once;
    ends = All-append (Ends e.seen) e.edges (k ∷ []) b.ends ((ground arith, ground arith), tt);
  })
  | inr no_edge ↦ rw no_edge b
]

add_edges-IsBuilt :
    (f : Relationship → EdgeLine) (rs : List Relationship) (e : Elements)
    → IsBuilt e
    → IsBuilt (add_edges f rs e)
unfolding add_edges
add_edges-IsBuilt f [] e b = b
add_edges-IsBuilt f (r ∷ rs) e b =
    add_edges-IsBuilt f rs (add_edge_if_present (f r) e) (add_edge-IsBuilt (f r) e b)

add_reports-IsBuilt :
    (m : List (String × Relationship)) (e : Elements) → IsBuilt e → IsBuilt (add_reports m e)
unfolding add_reports
add_reports-IsBuilt [] e b = b
add_reports-IsBuilt ((k, r) ∷ m) e b = elim (Bool-cases (r.target_type =ˢ "agent")) [
  | inl t ↦ rw t (
      add_reports-IsBuilt m (add_edge_if_present (report_edge r) e)
        (add_edge-IsBuilt (report_edge r) e b))
  | inr t ↦ rw t (add_reports-IsBuilt m e b)
]

-- What is seen stays seen.
seen-add_node :
    (n : Node) (e : Elements) (x : String) → has e.seen x ≡ true → has (add_node n e).seen x ≡ true
unfolding add_node
seen-add_node n e x h = ground arith

seen-add_node_self : (n : Node) (e : Elements) → has (add_node n e).seen n.id ≡ true
unfolding add_node
seen-add_node_self n e = ground (arith, eq_refl n.id)

seen-add_nodes {ℓ} :
    {A : Type ℓ} (f : A → Node) (l : List A) (e : Elements) (x : String)
    → has e.seen x ≡ true
    → has (add_nodes f l e).seen x ≡ true
unfolding add_nodes
seen-add_nodes f [] e x h = h
seen-add_nodes f (a ∷ r) e x h = seen-add_nodes f r (add_node (f a) e) x (seen-add_node (f a) e x h)

seen-add_nodes-All {ℓ} :
    {A : Type ℓ} (f : A → Node) (l : List A) (e : Elements)
    → All (λ a. has (add_nodes f l e).seen (f a).id ≡ true) l
unfolding add_nodes
seen-add_nodes-All f [] e = tt
seen-add_nodes-All f (a ∷ r) e = (
  seen-add_nodes f r (add_node (f a) e) (f a).id (seen-add_node_self (f a) e),
  seen-add_nodes-All f r (add_node (f a) e),
)

seen-add_reports :
    (m : List (String × Relationship)) (e : Elements) → (add_reports m e).seen ≡ e.seen
unfolding add_reports add_edge_if_present
seen-add_reports [] e = refl
seen-add_reports ((k, r) ∷ m) e = seen-add_reports m _ ∙ ground arith

add_implicit-IsBuilt :
    (m : List (String × Relationship)) (l : List Agent) (e : Elements)
    → has e.seen owner_id ≡ true
    → All (λ a. has e.seen (agent_node a).id ≡ true) l
    → IsBuilt e
    → IsBuilt (add_implicit m l e)
unfolding add_implicit
add_implicit-IsBuilt m [] e o h b = b
add_implicit-IsBuilt m (a ∷ r) e o h b = elim (Bool-cases (is_some (map_get a.id m))) [
  | inl t ↦ rw t (add_implicit-IsBuilt m r e o h.1 b)
  | inr t ↦ rw t (
      add_implicit-IsBuilt m r (record e { edges = e.edges ++ implicit_edge a ∷ [] }) o h.1
        (record {
          once = b.once;
          ends = All-append (Ends e.seen) e.edges (implicit_edge a ∷ []) b.ends ((h.0, o), tt);
        }))
]

none-IsBuilt : IsBuilt no_elements
none-IsBuilt = record { once = λ x. refl; ends = tt }

lens-IsBuilt : (v : Subview) (agents : List Agent) (st : State) → IsBuilt (lens v agents st)
unfolding lens
lens-IsBuilt organisation agents st =
    let reports = by_source (rel_of_type "reports_to" st) [] in
    let e0 = add_node owner_node no_elements in
    let e1 = add_nodes agent_node agents e0 in
    let s = seen-add_reports reports e1 in
    add_implicit-IsBuilt reports agents (add_reports reports e1)
      (rw s
        (seen-add_nodes agent_node agents e0 owner_id (seen-add_node_self owner_node no_elements)))
      (rw s (seen-add_nodes-All agent_node agents e0))
      (add_reports-IsBuilt reports e1 (
        add_nodes-IsBuilt agent_node agents e0
          (add_node-IsBuilt owner_node no_elements none-IsBuilt)))
lens-IsBuilt teams agents st =
    add_edges-IsBuilt member_edge _ _
      (add_nodes-IsBuilt agent_node agents _ (add_nodes-IsBuilt team_node _ _ none-IsBuilt))
lens-IsBuilt projekte agents st =
    add_edges-IsBuilt work_edge _ _
      (add_nodes-IsBuilt agent_node agents _ (add_nodes-IsBuilt project_node _ _ none-IsBuilt))
lens-IsBuilt ressourcen agents st = add_edges-IsBuilt (resource_edge "may_use_resource") _ _ (
    add_edges-IsBuilt (resource_edge "responsible_for_resource") _ _ (
      add_nodes-IsBuilt team_node _ _
        (add_nodes-IsBuilt agent_node agents _ (add_nodes-IsBuilt resource_node _ _ none-IsBuilt))))
lens-IsBuilt liste agents st = none-IsBuilt

build-IsBuilt :
    (v : Subview) (agents : List Agent) (st : Option State) → IsBuilt (build_elements v agents st)
unfolding build_elements
build-IsBuilt v agents none = none-IsBuilt
build-IsBuilt v agents (some st) = lens-IsBuilt v agents st

-- What the graph library needs of its input.
pub record IsGraph (e : Elements) : Type 0 where
  pub distinct : (x : String) → count_id x e.nodes ≤ 1
  pub joined : All (λ k. (count_id k.source e.nodes ≡ 1) × (count_id k.target e.nodes ≡ 1)) e.edges

joined_of_Ends :
    (e : Elements) (ks : List EdgeLine)
    → IsBuilt e
    → All (Ends e.seen) ks
    → All (λ k. (count_id k.source e.nodes ≡ 1) × (count_id k.target e.nodes ≡ 1)) ks
joined_of_Ends e [] b h = tt
joined_of_Ends e (k ∷ ks) b h =
    ((rw h.0.0 at (b.once k.source), rw h.0.1 at (b.once k.target)), joined_of_Ends e ks b h.1)

-- In every lens, for any agents and any state of the organisation, no two nodes have the same
-- identifier, and each end of each edge is the identifier of exactly one node.
pub build_elements-IsGraph :
    (v : Subview) (agents : List Agent) (st : Option State) → IsGraph (build_elements v agents st)
build_elements-IsGraph v agents st =
    let b = build-IsBuilt v agents st in
    record {
      distinct = λ x. ground (arith, b.once x);
      joined =
          joined_of_Ends (build_elements v agents st) (build_elements v agents st).edges b b.ends;
    }
