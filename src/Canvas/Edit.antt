-- ===== src/Canvas/Edit.antt =====
-- The dialog `openEditRelationshipsModal` of api/static/org-canvas.js: the connections of a node,
-- their removal, and the form for a new one. An event is something that the user or the backend
-- does to this dialog and to the questions that it opens.
use hufi_agents.Prelude.{
  ℕ, ◌+◌, String, Bool, true, false, not, ◌&&◌, List, [], ◌∷◌, ◌++◌, Option, none, some, ◌==◌, ◌=ˢ◌,
  if◌then◌else◌, is_some, find, map, get_elem?, remove_at, replace_at,
}
use hufi_agents.Js.Text.{Text, units}
use hufi_agents.OrgData.Types.{Agent, Relationship}
use hufi_agents.OrgData.Store.{
  Reply, Outcome, returned, thrown, Store, Edge, add_relationship, remove_relationship,
}
use hufi_agents.Canvas.Connect.{
  Item, Notice, success, warn, not_worked, failure_text, TypeOption, source_type_options, Target,
  targets_for, EditAction, ask, add, submit_edit,
}
use hufi_agents.Canvas.Details.{RelationshipRow, relationship_rows}
use hufi_agents.Canvas.Question.{Question, open_question, dismiss, Scene, QuestionEvent, after}

-- A line of the list, and whether its button can be clicked.
pub record Line : Type 0 where
  pub row : RelationshipRow
  pub enabled : Bool

-- A removal that waits: the relationship, and how often the list had been drawn at the click, since
-- a button of an older list is no longer in the document.
pub record Removal : Type 0 where
  pub id : String
  pub drawn : ℕ

pub record Edit : Type 0 where
  pub node : Item
  pub agents : List Agent
  pub shown : Bool
  pub lines : List Line
  pub drawn : ℕ
  pub chosen : Option TypeOption
  pub targets : List Target
  pub target : String
  pub error : Text
  pub removing : List Removal
  pub adding : List Edge
  pub questions : List Question
  pub store : Store
  pub notices : List Notice

abbrev rows_now : Edit → List RelationshipRow
rows_now d = relationship_rows d.agents d.node.kind d.node.id d.store

unfoldable pub render_existing : Edit → Edit
render_existing d = record d {
  lines = map (λ r. record { row = r; enabled = true }) (rows_now d);
  drawn = d.drawn + 1;
}

abbrev first_id : List Target → String
first_id [] = ""
first_id (t ∷ ts) = t.id

-- `refreshTargets` for the chosen type; a list that is filled anew has its first entry selected.
unfoldable pub choose_type : TypeOption → Edit → Edit
choose_type o d =
    let ts =
      targets_for o.target_kind (if d.node.kind =ˢ o.target_kind then some d.node.id else none)
        d.agents d.store.state in
    record d { chosen = some o; targets = ts; target = first_id ts }

abbrev pub with_form : List TypeOption → Edit → Edit
with_form [] d = d
with_form (o ∷ os) d = choose_type o d

unfoldable pub open_dialog : Item → List Agent → Store → List Notice → Edit
open_dialog node agents s notices = with_form (source_type_options node.kind) (
    render_existing (record {
      node = node;
      agents = agents;
      shown = true;
      lines = [];
      drawn = 0;
      chosen = none;
      targets = [];
      target = "";
      error = [];
      removing = [];
      adding = [];
      questions = [];
      store = s;
      notices = notices;
    }))

-- `change` of the first list: one of the options of the node is chosen.
unfoldable pub pick_type : ℕ → Edit → Edit
pick_type i d = elim (get_elem? (source_type_options d.node.kind) i) [
  | none ↦ d
  | some o ↦ choose_type o d
]

unfoldable pub pick_target : ℕ → Edit → Edit
pick_target i d = elim (get_elem? d.targets i) [ none ↦ d | some t ↦ record d { target = t.id } ]

abbrev start_removal : ℕ → Line → Edit → Edit
start_removal i l d =
    if l.enabled
    then record d {
      lines = replace_at i (record l { enabled = false }) d.lines;
      removing = d.removing ++ record { id = l.row.rel.id; drawn = d.drawn } ∷ [];
    }
    else d

-- A click on the `i`-th „Entfernen“.
unfoldable pub click_remove : ℕ → Edit → Edit
click_remove i d = elim (get_elem? d.lines i) [ none ↦ d | some l ↦ start_removal i l d ]

abbrev pub enable : String → List Line → List Line
enable id [] = []
enable id (l ∷ ls) = (if l.row.rel.id =ˢ id then record l { enabled = true } else l) ∷ enable id ls

abbrev pub removal_done : Removal → Edit → Store × Outcome (Unit {0}) → Edit
removal_done r d (s, returned u) =
    let e = render_existing (record d { store = s }) in
    record e {
      notices =
          record { tone = success; text = units "Ich habe die Verbindung entfernt." } ∷ e.notices;
    }
removal_done r d (s, thrown t) = record d {
  lines = if r.drawn == d.drawn then enable r.id d.lines else d.lines;
  store = s;
  notices = record { tone = warn; text = not_worked } ∷ d.notices;
}

unfoldable pub answer_removal : ℕ → (now : ℕ) → Reply (Unit {0}) → Edit → Edit
answer_removal i now reply d = elim (get_elem? d.removing i) [
  | none ↦ d
  | some r ↦
      removal_done r (record d { removing = remove_at i d.removing })
        (remove_relationship now r.id reply d.store)
]

-- `targetsFor('resource').find(...)?.label || targetId`
abbrev target_label : Edit → Text
target_label d =
    elim (find (λ t. t.id =ˢ d.target) (targets_for "resource" none d.agents d.store.state)) [
      | none ↦ units d.target
      | some t ↦ elim t.label [ [] ↦ units d.target | _ ∷ _ ↦ t.label ]
    ]

abbrev pub act : EditAction → Edit → Edit
act (ask s t) d = record d { questions = d.questions ++ open_question s t ∷ [] }
act (add e) d = record d { adding = d.adding ++ e ∷ [] }

abbrev pub submit_with : TypeOption → Edit → Edit
submit_with o d =
    if d.target =ˢ ""
    then d
    else act
        (submit_edit d.node o
          (record { kind = o.target_kind; id = d.target; label = target_label d }))
        (record d { error = [] })

unfoldable pub submit : Edit → Edit
submit d = elim d.chosen [ none ↦ d | some o ↦ submit_with o d ]

abbrev pub addition_done : Edit → Store × Outcome Relationship → Edit
addition_done d (s, returned r) =
    let e = render_existing (record d { store = s }) in
    record e {
      notices =
          record { tone = success; text = units "Ich habe die Verbindung erstellt." } ∷ e.notices;
    }
addition_done d (s, thrown t) = record d { error = failure_text t not_worked; store = s }

unfoldable pub answer_addition : ℕ → (mock_id : String) → Reply Relationship → Edit → Edit
answer_addition i mock_id reply d = elim (get_elem? d.adding i) [
  | none ↦ d
  | some e ↦
      addition_done (record d { adding = remove_at i d.adding })
        (add_relationship mock_id e reply d.store)
]

-- The list is drawn anew when the question that was waited for is settled.
abbrev pub settled_now : Question → Question → Bool
settled_now before now = not (is_some before.promise) && is_some now.promise

abbrev pub with_scene : ℕ → Question → Edit → Scene → Edit
with_scene i before d c =
    let e = record d {
      questions = replace_at i c.question d.questions;
      store = c.store;
      notices = c.notices;
    } in
    if settled_now before c.question then render_existing e else e

unfoldable pub in_question : ℕ → QuestionEvent → Edit → Edit
in_question i e d = elim (get_elem? d.questions i) [
  | none ↦ d
  | some q ↦
      with_scene i q d (after e (record { question = q; store = d.store; notices = d.notices }))
]

-- Escape: every dialog in the document has its own listener, so all of them are closed.
unfoldable pub escape : Edit → Edit
escape d = record d { shown = false; questions = map dismiss d.questions }

unfoldable pub close : Edit → Edit
close d = record d { shown = false }

pub data EditEvent : Type 0 where
  picks_type picks_target removes : ℕ → EditEvent
  removal_answered : ℕ → (now : ℕ) → Reply (Unit {0}) → EditEvent
  submits : EditEvent
  addition_answered : ℕ → (mock_id : String) → Reply Relationship → EditEvent
  questions_event : ℕ → QuestionEvent → EditEvent
  escapes closes : EditEvent

-- What the user does to the dialog can be done while it is in the document.
abbrev pub if_shown : (Edit → Edit) → Edit → Edit
if_shown f d = if d.shown then f d else d

unfoldable pub edit_after : EditEvent → Edit → Edit
edit_after (picks_type i) d = if_shown (pick_type i) d
edit_after (picks_target i) d = if_shown (pick_target i) d
edit_after (removes i) d = if_shown (click_remove i) d
edit_after (removal_answered i now reply) d = answer_removal i now reply d
edit_after submits d = if_shown submit d
edit_after (addition_answered i mock_id reply) d = answer_addition i mock_id reply d
edit_after (questions_event i e) d = in_question i e d
edit_after escapes d = escape d
edit_after closes d = close d

unfoldable pub edit_run : List EditEvent → Edit → Edit
edit_run [] d = d
edit_run (e ∷ es) d = edit_run es (edit_after e d)
