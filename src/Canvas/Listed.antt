-- ===== src/Canvas/Listed.antt =====
-- The list of the dialog for the connections of a node, `openEditRelationshipsModal` of
-- api/static/org-canvas.js, in each operation but those of its questions.
use hufi_agents.Prelude.{
  ℕ, zero, suc, ◌≡◌, refl, ap, sym, ◌∙◌, inl, inr, String, Bool, true, false, List, [], ◌∷◌, none,
  some, Option-cases, Bool-cases, ◌==◌, ◌=ˢ◌, if◌then◌else◌, map, get_elem?, remove_at, replace_at,
}
use hufi_agents.OrgData.Types.{Relationship}
use hufi_agents.OrgData.Store.{Reply, Outcome, returned, thrown, Store}
use hufi_agents.OrgData.Mutations.{Settles, remove-Settles, add-Settles}
use hufi_agents.Canvas.Connect.{TypeOption, source_type_options, EditAction, ask, add}
use hufi_agents.Canvas.Details.{RelationshipRow, relationship_rows}
use hufi_agents.Canvas.Edit.{
  Line, Removal, Edit, render_existing, choose_type, pick_type, pick_target, click_remove, enable,
  removal_done, answer_removal, submit, addition_done, answer_addition, if_shown, act,
}

abbrev pub rows_of : Edit → List RelationshipRow
rows_of d = map (λ l. l.row) d.lines

-- The list shows what the organisation has.
abbrev pub IsCurrent : Edit → Type 0
IsCurrent d = rows_of d ≡ relationship_rows d.agents d.node.kind d.node.id d.store

pub row-Line :
    (l : List RelationshipRow)
    → map (λ (x : Line). x.row) (map (λ r. record { row = r; enabled = true }) l) ≡ l
row-Line [] = refl
row-Line (r ∷ l) = ap (λ x. r ∷ x) (row-Line l)

pub render-IsCurrent : (d : Edit) → IsCurrent (render_existing d)
unfolding render_existing
render-IsCurrent d = row-Line (relationship_rows d.agents d.node.kind d.node.id d.store)

pub row-enable :
    (id : String) (ls : List Line) → map (λ l. l.row) (enable id ls) ≡ map (λ l. l.row) ls
row-enable id [] = refl
row-enable id (l ∷ ls) = elim (Bool-cases (l.row.rel.id =ˢ id)) [
  | inl t ↦ rw t (ap (λ x. l.row ∷ x) (row-enable id ls))
  | inr f ↦ rw f (ap (λ x. l.row ∷ x) (row-enable id ls))
]

pub row-replace_at :
    (i : ℕ) (l : Line) (ls : List Line)
    → get_elem? ls i ≡ some l
    → map (λ x. x.row) (replace_at i (record l { enabled = false }) ls) ≡ map (λ x. x.row) ls
row-replace_at i l [] h = refl
row-replace_at zero l (x ∷ xs) h =
    ap (λ r. r ∷ map (λ (y : Line). y.row) xs)
      (ap (λ o. elim o [ none ↦ l.row | some y ↦ y.row ]) (sym h))
row-replace_at (suc i) l (x ∷ xs) h = ap (λ r. x.row ∷ r) (row-replace_at i l xs h)

pub if-IsCurrent :
    (b : Bool) (x y : Edit)
    → (b ≡ true → IsCurrent x)
    → (b ≡ false → IsCurrent y)
    → IsCurrent (if b then x else y)
if-IsCurrent true x y h k = h refl
if-IsCurrent false x y h k = k refl

pub removal_done-IsCurrent :
    (r : Removal) (d : Edit) (o : Store × Outcome (Unit {0}))
    → Settles d.store o
    → IsCurrent d
    → IsCurrent (removal_done r d o)
unfolding render_existing
removal_done-IsCurrent r d (s, returned u) h c = render-IsCurrent (record d { store = s })
removal_done-IsCurrent r d (s, thrown t) h c = elim (Bool-cases (r.drawn == d.drawn)) [
  | inl e ↦ rw (e, h) (row-enable r.id d.lines ∙ c)
  | inr e ↦ rw (e, h) c
]

pub addition_done-IsCurrent :
    (d : Edit) (o : Store × Outcome Relationship)
    → Settles d.store o
    → IsCurrent d
    → IsCurrent (addition_done d o)
unfolding render_existing
addition_done-IsCurrent d (s, returned r) h c = render-IsCurrent (record d { store = s })
addition_done-IsCurrent d (s, thrown t) h c = rw h c

pub click_remove-IsCurrent : (i : ℕ) (d : Edit) → IsCurrent d → IsCurrent (click_remove i d)
unfolding click_remove
click_remove-IsCurrent i d k = elim (Option-cases (get_elem? d.lines i)) [
  | inl n ↦ rw (n, click_remove) k
  | inr (l, h) ↦
      rw (h, click_remove)
        (if-IsCurrent l.enabled _ d (λ _. row-replace_at i l d.lines h ∙ k) (λ _. k))
]

pub answer_removal-IsCurrent :
    (i now : ℕ) (r : Reply (Unit {0})) (d : Edit)
    → IsCurrent d
    → IsCurrent (answer_removal i now r d)
unfolding answer_removal
answer_removal-IsCurrent i now r d k = elim (Option-cases (get_elem? d.removing i)) [
  | inl n ↦ rw (n, answer_removal) k
  | inr (x, h) ↦
      rw (h, answer_removal)
        (removal_done-IsCurrent x (record d { removing = remove_at i d.removing }) _
          (remove-Settles now x.id r d.store) k)
]

pub answer_addition-IsCurrent :
    (i : ℕ) (id : String) (r : Reply Relationship) (d : Edit)
    → IsCurrent d
    → IsCurrent (answer_addition i id r d)
unfolding answer_addition
answer_addition-IsCurrent i id r d k = elim (Option-cases (get_elem? d.adding i)) [
  | inl n ↦ rw (n, answer_addition) k
  | inr (e, h) ↦
      rw (h, answer_addition)
        (addition_done-IsCurrent (record d { adding = remove_at i d.adding }) _
          (add-Settles id e r d.store) k)
]

-- An operation of the form changes neither the list nor the organisation.
pub choose_type-IsCurrent : (o : TypeOption) (d : Edit) → IsCurrent d → IsCurrent (choose_type o d)
unfolding choose_type
choose_type-IsCurrent o d k = k

pub pick_type-IsCurrent : (i : ℕ) (d : Edit) → IsCurrent d → IsCurrent (pick_type i d)
unfolding pick_type
pick_type-IsCurrent i d k = elim (Option-cases (get_elem? (source_type_options d.node.kind) i)) [
  | inl n ↦ rw (n, pick_type) k
  | inr (o, h) ↦ rw (h, pick_type) (choose_type-IsCurrent o d k)
]

pub pick_target-IsCurrent : (i : ℕ) (d : Edit) → IsCurrent d → IsCurrent (pick_target i d)
unfolding pick_target
pick_target-IsCurrent i d k = elim (Option-cases (get_elem? d.targets i)) [
  | inl n ↦ rw (n, pick_target) k
  | inr (t, h) ↦ rw (h, pick_target) k
]

pub act-IsCurrent : (a : EditAction) (d : Edit) → IsCurrent d → IsCurrent (act a d)
act-IsCurrent (ask s t) d k = k
act-IsCurrent (add e) d k = k

pub submit-IsCurrent : (d : Edit) → IsCurrent d → IsCurrent (submit d)
unfolding submit
submit-IsCurrent d k = elim (Option-cases d.chosen) [
  | inl n ↦ rw (n, submit) k
  | inr (o, h) ↦
      rw (h, submit)
        (if-IsCurrent (d.target =ˢ "") d _ (λ _. k)
          (λ _. act-IsCurrent _ (record d { error = [] }) k))
]

pub if_shown-IsCurrent :
    (f : Edit → Edit) (d : Edit)
    → (IsCurrent d → IsCurrent (f d))
    → IsCurrent d
    → IsCurrent (if_shown f d)
if_shown-IsCurrent f d h k = if-IsCurrent d.shown (f d) d (λ _. h k) (λ _. k)
