-- ===== src/Canvas/Details.antt =====
-- The relationships of a node as api/static/org-canvas.js tells them: `relationshipRows` and the
-- labels that it uses.
use mathlib.Core.Path.{subst}
use hufi_agents.Prelude.{
  ◌≡◌, refl, String, Bool, true, false, ◌&&◌, List, [], ◌∷◌, Option, none, some, ◌=ˢ◌,
  if◌then◌else◌, map, At, here, there, At-select, select, sym, eq_refl, arith,
}
use hufi_agents.Js.Text.{Text, units}
use hufi_agents.Agents.Names.{humanize_id}
use hufi_agents.OrgData.Types.{Agent, Relationship, State}
use hufi_agents.OrgData.Store.{
  Store, get_agent_by_id, get_team_by_id, get_project_by_id, get_resource_by_id, relationships_for,
  touches, is_live, to_node,
}

-- `REL_LABELS`, from the source's side and from the target's.
abbrev label_of : (is_source : Bool) (forward backward : String) → String
label_of true forward backward = forward
label_of false forward backward = backward

unfoldable pub relationship_label : String → (is_source : Bool) → String
relationship_label t is_source =
    if t =ˢ "reports_to"
    then label_of is_source "Berichtet an" "Vorgesetzter von"
    else if t =ˢ "member_of_team"
    then label_of is_source "Gehört zu Team" "Mitglied"
    else if t =ˢ "works_on_project"
    then label_of is_source "Arbeitet an Projekt" "Projektmitglied"
    else if t =ˢ "responsible_for_resource"
    then label_of is_source "Verantwortlich für" "Verantwortlich"
    else if t =ˢ "may_use_resource"
    then label_of is_source "Darf verwenden" "Darf genutzt werden von"
    else t

-- `getAgent`: the agents of the sidebar first, which are an argument, then those of the organisation.
unfoldable pub get_agent : List Agent → Store → String → Option Agent
unfolding get_agent_by_id
get_agent [] s id = get_agent_by_id s id
get_agent (a ∷ l) s id = if a.id =ˢ id then some a else get_agent l s id

-- `labelFor`
unfoldable pub label_for : List Agent → Store → (kind id : String) → Text
label_for agents s kind id =
    if kind =ˢ "agent"
    then elim (get_agent agents s id) [ some a ↦ humanize_id (units a.id) | none ↦ units id ]
    else if kind =ˢ "team"
    then elim (get_team_by_id s id) [ some t ↦ units t.name | none ↦ units id ]
    else if kind =ˢ "project"
    then elim (get_project_by_id s id) [ some p ↦ units p.name | none ↦ units id ]
    else if kind =ˢ "resource"
    then elim (get_resource_by_id s id) [ some r ↦ units r.name | none ↦ units id ]
    else units id

pub record RelationshipRow : Type 0 where
  pub rel : Relationship
  pub label : String
  pub other : Text

abbrev pub is_source_of : String → String → Relationship → Bool
is_source_of kind id r = r.source_type =ˢ kind && r.source_id =ˢ id

unfoldable pub relationship_row :
    List Agent → Store → (kind id : String) → Relationship → RelationshipRow
relationship_row agents s kind id r =
    let out = is_source_of kind id r in
    record {
      rel = r;
      label = relationship_label r.relationship_type out;
      other =
          if out
          then label_for agents s r.target_type r.target_id
          else label_for agents s r.source_type r.source_id;
    }

unfoldable pub relationship_rows : List Agent → (kind id : String) → Store → List RelationshipRow
unfolding relationship_row
relationship_rows agents kind id s =
    map (relationship_row agents s kind id) (relationships_for kind id s)

At-map : {A B : Type 0} (f : A → B) {a : A} {l : List A} → At a l → At (f a) (map f l)
At-map f here = here
At-map f (there m) = there (At-map f m)

loaded_relationships :
    (kind id : String) (s : Store) (st : State)
    → s.state ≡ some st
    → relationships_for kind id s ≡ select (touches kind id) st.relationships
unfolding relationships_for
loaded_relationships kind id s st h = rw (h, relationships_for) refl

row-At :
    (agents : List Agent) (s : Store) (st : State) (kind id : String) (r : Relationship)
    → s.state ≡ some st
    → At r st.relationships
    → touches kind id r ≡ true
    → At (relationship_row agents s kind id r) (relationship_rows agents kind id s)
unfolding relationship_rows
row-At agents s st kind id r h m t =
    subst
      (λ l. At (relationship_row agents s kind id r) (map (relationship_row agents s kind id) l))
      (sym (loaded_relationships kind id s st h))
      (At-map (relationship_row agents s kind id) (At-select (touches kind id) m t))

abbrev pub row : Relationship → Bool → Text → RelationshipRow
row r out other = record {
  rel = r;
  label = relationship_label r.relationship_type out;
  other = other;
}

-- A live relationship between two different nodes is told at both: at its source with the forward
-- label and the name of the target, at its target with the backward label and the name of the
-- source.
pub relationship_rows_both :
    (agents : List Agent) (s : Store) (st : State) (r : Relationship)
    → s.state ≡ some st
    → At r st.relationships
    → is_live r ≡ true
    → is_source_of r.target_type r.target_id r ≡ false
    → At
        (row r true (label_for agents s r.target_type r.target_id))
        (relationship_rows agents r.source_type r.source_id s)
      × At
          (row r false (label_for agents s r.source_type r.source_id))
          (relationship_rows agents r.target_type r.target_id s)
unfolding relationship_row
relationship_rows_both agents s st r h m l n =
    let own : is_source_of r.source_type r.source_id r ≡ true =
      rw (eq_refl r.source_type, eq_refl r.source_id) refl in
    let away : to_node r.target_type r.target_id r ≡ true =
      rw (eq_refl r.target_type, eq_refl r.target_id) refl in
    (
      subst (λ x. At x (relationship_rows agents r.source_type r.source_id s))
          (rw (own, relationship_row) refl)
          (row-At agents s st r.source_type r.source_id r h m (ground (arith, l, own))),
      subst (λ x. At x (relationship_rows agents r.target_type r.target_id s))
          (rw (n, relationship_row) refl)
          (row-At agents s st r.target_type r.target_id r h m (ground (arith, l, away))),
    )
